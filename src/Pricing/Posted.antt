-- ===== src/Pricing/Posted.antt =====
-- libs/smartfood-pricing/smartfood_pricing/hours.py against what a posted window means: so many
-- seconds from its opening, past midnight if it closes earlier in the day than it opens.
use smart_food_ops.Prelude.{
  ℕ, ◌+◌, ◌-◌, ◌<◌, ◌≡◌, refl, Bool, true, false, ◌||◌, ◌&&◌, Option, none, some, List, [], ◌∷◌,
  ltb, leb, nat_eq, arith, if◌then◌else◌, Option-cases, Bool-cases, inl, inr,
}
use smart_food_ops.Prelude.Int.{ℤ}
use smart_food_ops.Table.{Table}
use smart_food_ops.Pricing.Hours.{
  Value, text, other_value, time_of, parse_hhmm, Day, points, unreadable, null, with_window,
  pair_points, windows, day_of, is_null, or_none, open_today, open_since_yesterday, yesterday_of,
  open_at, is_open_at,
}

abbrev pub day_seconds : ℕ
day_seconds = 86400

-- How long a window lasts.
abbrev pub duration : ℕ × ℕ → ℕ
duration (opens, closes) = if leb opens closes then closes - opens else closes + day_seconds - opens

-- `since` is the time since midnight of the day that posts the windows.
unfoldable pub any_covers : ℕ → List (ℕ × ℕ) → Bool
any_covers since [] = false
any_covers since (window ∷ rest) =
    (leb window.0 since && ltb (since - window.0) (duration window)) || any_covers since rest

unfoldable pub in_day : List (ℕ × ℕ) → Bool
in_day [] = true
in_day ((opens, closes) ∷ rest) = ltb opens day_seconds && ltb closes day_seconds && in_day rest

open_today-covers :
    (now : ℕ) (found : List (ℕ × ℕ))
    → now < day_seconds
    → open_today now found ≡ any_covers now found
unfolding open_today any_covers
open_today-covers now [] h = refl
open_today-covers now ((opens, closes) ∷ rest) h = ground (arith, open_today-covers now rest h)

open_since_yesterday-covers :
    (now : ℕ) (found : List (ℕ × ℕ))
    → in_day found ≡ true
    → open_since_yesterday now found ≡ any_covers (now + day_seconds) found
unfolding open_since_yesterday any_covers in_day
open_since_yesterday-covers now [] fits = refl
open_since_yesterday-covers now ((opens, closes) ∷ rest) fits =
    ground (arith, open_since_yesterday-covers now rest)

abbrev time_in_day : Option ℕ → Bool
time_in_day none = true
time_in_day (some t) = ltb t day_seconds

time_of-in_day : (hour minute : ℤ) → time_in_day (time_of hour minute) ≡ true
time_of-in_day hour minute = ground arith

parse_hhmm-in_day : (v : Value) → time_in_day (parse_hhmm v) ≡ true
unfolding parse_hhmm
parse_hhmm-in_day other_value = refl
parse_hhmm-in_day (text []) = refl
parse_hhmm-in_day (text (none ∷ rest)) = refl
parse_hhmm-in_day (text (some hour ∷ [])) = refl
parse_hhmm-in_day (text (some hour ∷ none ∷ rest)) = refl
parse_hhmm-in_day (text (some hour ∷ some minute ∷ [])) = time_of-in_day hour minute
parse_hhmm-in_day (text (some hour ∷ some minute ∷ more ∷ rest)) = refl

with_window-in_day :
    (opens closes : Option ℕ) (rest : Option (List (ℕ × ℕ)))
    → time_in_day opens ≡ true
    → time_in_day closes ≡ true
    → in_day (or_none rest) ≡ true
    → in_day (or_none (with_window opens closes rest)) ≡ true
unfolding in_day
with_window-in_day (some o) (some c) (some rest) f g h = rw (f, g, h) refl
with_window-in_day none closes rest f g h = refl
with_window-in_day (some o) none rest f g h = refl
with_window-in_day (some o) (some c) none f g h = refl

pair_points-in_day : (values : List Value) → in_day (or_none (pair_points values)) ≡ true
unfolding pair_points in_day
pair_points-in_day [] = refl
pair_points-in_day (_ ∷ []) = refl
pair_points-in_day (opens ∷ closes ∷ rest) =
    with_window-in_day (parse_hhmm opens) (parse_hhmm closes) (pair_points rest)
      (parse_hhmm-in_day opens) (parse_hhmm-in_day closes) (pair_points-in_day rest)

windows-in_day : (day : Day) → in_day (or_none (windows day)) ≡ true
unfolding windows in_day
windows-in_day (points values) = pair_points-in_day values
windows-in_day unreadable = refl
windows-in_day null = refl

-- Whether the windows posted today or yesterday cover the moment.
abbrev pub posted : Table ℕ Day → ℕ → ℕ → Bool
posted hours weekday now =
    any_covers now (or_none (windows (day_of weekday hours)))
    || any_covers (now + day_seconds) (or_none (windows (day_of (yesterday_of weekday) hours)))

abbrev pub is_readable : Day → Bool
is_readable day = is_null day || elim (windows day) [ none ↦ false | some _ ↦ true ]

open_at-posted :
    (hours : Table ℕ Day) (weekday now : ℕ)
    → now < day_seconds
    → open_at hours weekday now
      ≡ (if is_readable (day_of weekday hours) then posted hours weekday now else true)
unfolding open_at any_covers
open_at-posted hours weekday now h =
    let today = day_of weekday hours in
    let yesterday = or_none (windows (day_of (yesterday_of weekday) hours)) in
    let past =
      open_since_yesterday-covers now yesterday
        (windows-in_day (day_of (yesterday_of weekday) hours)) in
    elim (Option-cases (windows today)) [
      | inl none_read ↦ elim (Bool-cases (is_null today)) [
        | inl empty ↦ ground (arith, none_read, empty, past)
        | inr bad ↦ ground (arith, none_read, bad)
      ]
      | inr (found, read) ↦ ground (arith, read, past, open_today-covers now found h)
    ]

-- With a schedule that has an entry, in a known time zone, at a second of the day: the restaurant
-- is open exactly when a window posted today or yesterday covers the moment, opening included and
-- closing excluded; if today's entry cannot be read, it is open.
pub is_open_at-posted :
    (first : ℕ × Day) (hours : Table ℕ Day) (weekday now : ℕ)
    → now < day_seconds
    → is_open_at (some (first ∷ hours)) (some (weekday, now)) ≡ (
        if is_readable (day_of weekday (first ∷ hours))
        then posted (first ∷ hours) weekday now
        else true)
unfolding is_open_at
is_open_at-posted first hours weekday now h = open_at-posted (first ∷ hours) weekday now h
