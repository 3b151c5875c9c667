-- ===== src/Order/Graph.antt =====
-- The order's life: which moves services/order asks for, and what an order's columns say of its
-- status (the state machine of db.py, `MILESTONES` of domain/transitions.py).
use smart_food_ops.Prelude.{
  ℕ, zero, suc, ◌≡◌, refl, sym, ap, ◌∙◌, Bool, true, false, Option, none, some, List, [], ◌∷◌,
  nat_beq, nat_beq_iff, leb, if◌then◌else◌, arith,
}
use smart_food_ops.Order.Rows.{
  OrderStatus, placed, validated, payment_cleared, confirmed, accepted, preparing, ready, picked_up,
  delivered, settled, cancelling, cancelled, refunded, status_index, status_beq, CancelReason,
  Milestones,
}
use smart_food_ops.Order.Transitions.{Move, stamp}
use smart_food_ops.Order.Activities.{
  validate_move, clear_move, confirm_move, accept_move, pick_up_move, deliver_move, settle_move,
  begin_cancel_move, finish_cancel_move,
}
use smart_food_ops.Order.Kitchen.{preparing_move, ready_move}

unfoldable status_at : ℕ → OrderStatus
status_at n =
    if nat_beq n 0
    then placed
    else if nat_beq n 1
    then validated
    else if nat_beq n 2
    then payment_cleared
    else if nat_beq n 3
    then confirmed
    else if nat_beq n 4
    then accepted
    else if nat_beq n 5
    then preparing
    else if nat_beq n 6
    then ready
    else if nat_beq n 7
    then picked_up
    else if nat_beq n 8
    then delivered
    else if nat_beq n 9
    then settled
    else if nat_beq n 10
    then cancelling
    else if nat_beq n 11
    then cancelled
    else refunded

status_at-status_index : (s : OrderStatus) → status_at (status_index s) ≡ s
unfolding status_at
status_at-status_index placed = refl
status_at-status_index validated = refl
status_at-status_index payment_cleared = refl
status_at-status_index confirmed = refl
status_at-status_index accepted = refl
status_at-status_index preparing = refl
status_at-status_index ready = refl
status_at-status_index picked_up = refl
status_at-status_index delivered = refl
status_at-status_index settled = refl
status_at-status_index cancelling = refl
status_at-status_index cancelled = refl
status_at-status_index refunded = refl

pub status_beq-≡ : (s t : OrderStatus) → status_beq s t ≡ true → s ≡ t
status_beq-≡ s t h =
    sym (status_at-status_index s)
    ∙ ap status_at ((nat_beq_iff (status_index s) (status_index t)).0 h)
    ∙ status_at-status_index t

-- Where the saga stands before the kitchen's window: the states that a cancel may name.
pub data Stage : Type 0 where
  at_placed at_validated at_payment_cleared at_confirmed : Stage

abbrev pub stage_status : Stage → OrderStatus
stage_status at_placed = placed
stage_status at_validated = validated
stage_status at_payment_cleared = payment_cleared
stage_status at_confirmed = confirmed

-- The moves that the saga and the kitchen ask `transition` for.
pub data Legal : Move → Type 0 where
  validates : Legal validate_move
  clears : Legal clear_move
  confirms : Legal confirm_move
  accepts : Legal accept_move
  prepares : Legal preparing_move
  readies : Legal ready_move
  picks_up : Legal pick_up_move
  delivers : Legal deliver_move
  settles : Legal settle_move
  begins_cancel :
      (stage : Stage) (reason : CancelReason)
      → Legal (begin_cancel_move (stage_status stage) reason)
  finishes_cancel : (reason : CancelReason) → Legal (finish_cancel_move reason)

abbrev pub is_some : {A : Type 0} → Option A → Bool
is_some none = false
is_some (some _) = true

-- How many of the columns are set, when those that are set come first.
unfoldable pub stamps_set : List (Option ℕ) → Option ℕ
stamps_set [] = some 0
stamps_set (none ∷ rest) = elim (stamps_set rest) [ some zero ↦ some zero | _ ↦ none ]
stamps_set (some _ ∷ rest) = elim (stamps_set rest) [ some n ↦ some (suc n) | none ↦ none ]

abbrev pub columns : Milestones → List (Option ℕ)
columns m =
    m.payment_cleared_at ∷ m.confirmed_at ∷ m.accepted_at ∷ m.preparing_at ∷ m.ready_at
    ∷ m.picked_up_at ∷ []

-- How many milestones an order with the status has behind it.
abbrev pub fits : OrderStatus → ℕ → Bool
fits placed n = nat_beq n 0
fits validated n = nat_beq n 0
fits payment_cleared n = nat_beq n 1
fits confirmed n = nat_beq n 2
fits accepted n = nat_beq n 3
fits preparing n = nat_beq n 4
fits ready n = nat_beq n 5
fits picked_up n = nat_beq n 6
fits delivered n = nat_beq n 6
fits settled n = nat_beq n 6
fits cancelling n = leb n 5
fits cancelled n = leb n 5
fits refunded n = false

unfoldable pub is_timely : OrderStatus → Milestones → Bool
unfolding stamps_set
is_timely status m = elim (stamps_set (columns m)) [ none ↦ false | some n ↦ fits status n ]

abbrev pub is_cancel : OrderStatus → Bool
is_cancel cancelling = true
is_cancel cancelled = true
is_cancel _ = false

pub Legal-timely :
    (move : Move)
    → Legal move
    → (now : ℕ) (m : Milestones) → is_timely move.expected m ≡ true
    → is_timely move.target (stamp move.target now m) ≡ true
unfolding is_timely
Legal-timely _ validates now m h = ground arith
Legal-timely _ clears now m h = ground arith
Legal-timely _ confirms now m h = ground arith
Legal-timely _ accepts now m h = ground arith
Legal-timely _ prepares now m h = ground arith
Legal-timely _ readies now m h = ground arith
Legal-timely _ picks_up now m h = ground arith
Legal-timely _ delivers now m h = ground arith
Legal-timely _ settles now m h = ground arith
Legal-timely _ (begins_cancel stage reason) now m h = ground arith
Legal-timely _ (finishes_cancel reason) now m h = ground arith
