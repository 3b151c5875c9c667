-- ===== src/Order/Sound.antt =====
-- The invariant of order_db, row by row, and what a change of one row must bring to keep it.
use smart_food_ops.Prelude.{
  ℕ, ◌≡◌, refl, Bool, true, false, ◌&&◌, ◌||◌, not, Option, none, some, List, [], ◌∷◌, nat_beq,
  nat_beq_iff, leb, if◌then◌else◌, arith, nat_eq, Bool-cases, inl, inr,
}
use smart_food_ops.Table.{Table, lookup, insert, lookup-insert}
use smart_food_ops.Order.Rows.{
  OrderStatus, ready, status_index, CancelReason, Milestones, Order, Cancellation, World,
}
use smart_food_ops.Order.Transitions.{Move, stamp, record_reason}
use smart_food_ops.Order.Graph.{
  Legal, validates, clears, confirms, accepts, prepares, readies, picks_up, delivers, settles,
  begins_cancel, finishes_cancel, is_timely, is_cancel, is_some, stamps_set, columns,
}

abbrev pub bool_beq : Bool → Bool → Bool
bool_beq true b = b
bool_beq false b = not b

-- The milestones fit the status, and there is a cancellation exactly when the order is in the
-- unwind or cancelled.
abbrev pub is_sound : Option Order → Option Cancellation → Bool
is_sound none cancellation = not (is_some cancellation)
is_sound (some row) cancellation =
    is_timely row.status row.milestones && bool_beq (is_some cancellation) (is_cancel row.status)

unfoldable pub IsSound : World → Type 0
IsSound w = (o : ℕ) → is_sound (lookup o w.orders) (lookup o w.cancellations) ≡ true

abbrev pub keeps_stamp : Option ℕ → Option ℕ → Bool
keeps_stamp none after = true
keeps_stamp (some t) (some u) = nat_beq t u
keeps_stamp (some t) none = false

unfoldable pub keeps_all : List (Option ℕ) → List (Option ℕ) → Bool
keeps_all [] after = true
keeps_all (t ∷ before) [] = false
keeps_all (t ∷ before) (u ∷ after) = keeps_stamp t u && keeps_all before after

abbrev pub keeps_stamps : Milestones → Milestones → Bool
keeps_stamps m n = keeps_all (columns m) (columns n)

pub keeps_all_refl : (before : List (Option ℕ)) → keeps_all before before ≡ true
unfolding keeps_all
keeps_all_refl [] = refl
keeps_all_refl (t ∷ before) = ground (arith, keeps_all_refl before)

keeps_all_trans :
    (a b c : List (Option ℕ)) → keeps_all a b ≡ true → keeps_all b c ≡ true → keeps_all a c ≡ true
unfolding keeps_all
keeps_all_trans [] b c g h = refl
keeps_all_trans (t ∷ a) [] c g h = ground arith
keeps_all_trans (t ∷ a) (u ∷ b) [] g h = ground arith
keeps_all_trans (t ∷ a) (u ∷ b) (v ∷ c) g h = ground (arith, keeps_all_trans a b c)

-- Up in the order of the statuses, and into the unwind only from before the pickup.
abbrev pub reaches : OrderStatus → OrderStatus → Bool
reaches s t =
    leb (status_index s) (status_index t)
    && (not (is_cancel t) || is_cancel s || leb (status_index s) (status_index ready))

-- The row is there, no earlier in its life, with the stamps it had.
abbrev pub is_later : Option Order → Option Order → Bool
is_later none after = true
is_later (some row) none = false
is_later (some row) (some row') =
    reaches row.status row'.status && keeps_stamps row.milestones row'.milestones

pub is_later_refl : (before : Option Order) → is_later before before ≡ true
is_later_refl none = refl
is_later_refl (some row) = ground (arith, keeps_all_refl (columns row.milestones))

pub is_later_trans :
    (a b c : Option Order) → is_later a b ≡ true → is_later b c ≡ true → is_later a c ≡ true
is_later_trans none b c g h = refl
is_later_trans (some r) none c g h = ground arith
is_later_trans (some r) (some s) none g h = ground arith
is_later_trans (some r) (some s) (some t) g h =
    ground
      (arith, keeps_all_trans (columns r.milestones) (columns s.milestones) (columns t.milestones))

-- A step keeps the invariant and every row's past.
pub record Step (w w' : World) : Type 0 where
  pub sound : IsSound w → IsSound w'
  pub later : IsSound w → (o : ℕ) → is_later (lookup o w.orders) (lookup o w'.orders) ≡ true

pub Legal-later :
    (move : Move)
    → Legal move
    → (now : ℕ) (m : Milestones) → is_timely move.expected m ≡ true
    → reaches move.expected move.target && keeps_stamps m (stamp move.target now m) ≡ true
unfolding is_timely stamps_set keeps_all
Legal-later _ validates now m h = ground arith
Legal-later _ clears now m h = ground arith
Legal-later _ confirms now m h = ground arith
Legal-later _ accepts now m h = ground arith
Legal-later _ prepares now m h = ground arith
Legal-later _ readies now m h = ground arith
Legal-later _ picks_up now m h = ground arith
Legal-later _ delivers now m h = ground arith
Legal-later _ settles now m h = ground arith
Legal-later _ (begins_cancel stage reason) now m h = ground arith
Legal-later _ (finishes_cancel reason) now m h = ground arith

-- A move to the unwind, and none other, brings its reason.
pub Legal-reason :
    (move : Move)
    → Legal move
    → is_cancel move.target ≡ (if is_some move.cancel_reason then true else is_cancel move.expected)
Legal-reason _ validates = refl
Legal-reason _ clears = refl
Legal-reason _ confirms = refl
Legal-reason _ accepts = refl
Legal-reason _ prepares = refl
Legal-reason _ readies = refl
Legal-reason _ picks_up = refl
Legal-reason _ delivers = refl
Legal-reason _ settles = refl
Legal-reason _ (begins_cancel stage reason) = refl
Legal-reason _ (finishes_cancel reason) = refl

pub lookup-record_reason :
    (o j : ℕ) (reason : Option CancelReason) (now : ℕ) (t : Table ℕ Cancellation)
    → is_some (lookup j (record_reason o reason now t))
      ≡ (if nat_beq o j && is_some reason then true else is_some (lookup j t))
lookup-record_reason o j none now t = ground arith
lookup-record_reason o j (some reason) now t =
    ground
      (arith, nat_beq_iff o j, lookup-insert o j (record { reason = reason; cancelled_at = now }) t)

-- One row changes, and with it perhaps its cancellation.
pub one_row-Step :
    (o : ℕ) (row row' : Order) (w w' : World)
    → lookup o w.orders ≡ some row
    → w'.orders ≡ insert o row' w.orders
    → (is_sound (some row) (lookup o w.cancellations) ≡ true
        → is_sound (some row') (lookup o w'.cancellations) ≡ true)
    → (is_sound (some row) (lookup o w.cancellations) ≡ true
        → is_later (some row) (some row') ≡ true)
    → ((j : ℕ)
        → nat_beq o j ≡ false
        → is_some (lookup j w'.cancellations) ≡ is_some (lookup j w.cancellations))
    → Step w w'
unfolding IsSound
one_row-Step o row row' w w' found written sound later others = record {
  sound = λ s j. elim (Bool-cases (nat_beq o j)) [
    | inl same ↦ ground (arith, nat_beq_iff o j, lookup-insert o j row' w.orders, sound, s o)
    | inr other ↦ ground (arith, lookup-insert o j row' w.orders, others j other, s j)
  ];
  later = λ s j. elim (Bool-cases (nat_beq o j)) [
    | inl same ↦ ground (arith, nat_beq_iff o j, lookup-insert o j row' w.orders, later, s o)
    | inr other ↦ ground (arith, lookup-insert o j row' w.orders, is_later_refl (lookup j w.orders))
  ];
}
