-- ===== src/Pricing/Hours.antt =====
-- libs/smartfood-pricing/smartfood_pricing/hours.py. A JSON value that is a string is given by what
-- `int` reads of its parts at ":", none where it reads nothing; the local weekday and second of the
-- day, which the time zone database gives, are an argument, none for a zone it does not know.
use smart_food_ops.Prelude.{
  ℕ, ◌+◌, ◌*◌, ◌%◌, Bool, true, false, ◌||◌, ◌&&◌, Option, none, some, List, [], ◌∷◌, ltb, leb,
  nat_eq, if◌then◌else◌,
}
use smart_food_ops.Prelude.Int.{ℤ, pos}
use smart_food_ops.Table.{Table, lookup}

pub data Value : Type 0 where
  text : List (Option ℤ) → Value
  other_value : Value

abbrev pub time_of : ℤ → ℤ → Option ℕ
time_of (pos hour) (pos minute) =
    if leb hour 23 && leb minute 59 then some (hour * 3600 + minute * 60) else none
time_of _ _ = none

-- `_parse_hhmm`, in seconds of the day.
unfoldable pub parse_hhmm : Value → Option ℕ
parse_hhmm (text (some hour ∷ some minute ∷ [])) = time_of hour minute
parse_hhmm _ = none

-- A day's entry: a list, another value, or null.
pub data Day : Type 0 where
  points : List Value → Day
  unreadable null : Day

abbrev pub with_window : Option ℕ → Option ℕ → Option (List (ℕ × ℕ)) → Option (List (ℕ × ℕ))
with_window (some opens) (some closes) (some rest) = some ((opens, closes) ∷ rest)
with_window _ _ _ = none

-- The points in pairs; an unpaired one makes the day unreadable.
unfoldable pub pair_points : List Value → Option (List (ℕ × ℕ))
unfolding parse_hhmm
pair_points [] = some []
pair_points (_ ∷ []) = none
pair_points (opens ∷ closes ∷ rest) =
    with_window (parse_hhmm opens) (parse_hhmm closes) (pair_points rest)

-- `_windows`
unfoldable pub windows : Day → Option (List (ℕ × ℕ))
unfolding pair_points
windows (points values) = pair_points values
windows _ = none

-- `hours.get(day)`
abbrev pub day_of : ℕ → Table ℕ Day → Day
day_of weekday hours = elim (lookup weekday hours) [ none ↦ null | some day ↦ day ]

abbrev pub is_null : Day → Bool
is_null null = true
is_null _ = false

abbrev pub or_none : Option (List (ℕ × ℕ)) → List (ℕ × ℕ)
or_none none = []
or_none (some found) = found

-- The loop over today's windows.
unfoldable pub open_today : ℕ → List (ℕ × ℕ) → Bool
open_today now [] = false
open_today now ((opens, closes) ∷ rest) =
    (if leb opens closes then leb opens now && ltb now closes else leb opens now)
    || open_today now rest

-- The loop over yesterday's: the second half of an overnight window.
unfoldable pub open_since_yesterday : ℕ → List (ℕ × ℕ) → Bool
open_since_yesterday now [] = false
open_since_yesterday now ((opens, closes) ∷ rest) =
    (ltb closes opens && ltb now closes) || open_since_yesterday now rest

abbrev pub yesterday_of : ℕ → ℕ
yesterday_of weekday = (weekday + 6) % 7

unfoldable pub open_at : Table ℕ Day → ℕ → ℕ → Bool
unfolding windows open_today open_since_yesterday
open_at hours weekday now =
    let today = day_of weekday hours in
    let yesterday = or_none (windows (day_of (yesterday_of weekday) hours)) in
    elim (windows today) [
      | none ↦ if is_null today then open_since_yesterday now yesterday else true
      | some found ↦ open_today now found || open_since_yesterday now yesterday
    ]

-- `is_open_at`; an empty schedule is none at all.
unfoldable pub is_open_at : Option (Table ℕ Day) → Option (ℕ × ℕ) → Bool
unfolding open_at
is_open_at none local = true
is_open_at (some []) local = true
is_open_at (some (first ∷ hours)) none = true
is_open_at (some (first ∷ hours)) (some (weekday, now)) = open_at (first ∷ hours) weekday now
