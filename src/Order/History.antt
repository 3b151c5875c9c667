-- ===== src/Order/History.antt =====
-- All that writes order_db, one call at a time, and whole histories of calls.
use smart_food_ops.Prelude.{
  ℕ, ◌≡◌, refl, true, Option, none, some, List, [], ◌∷◌, nat_eq, Option-cases, inl, inr,
}
use smart_food_ops.Table.{lookup}
use smart_food_ops.Order.Rows.{OrderStatus, CancelReason, Order, World, PlacementInput}
use smart_food_ops.Order.Transitions.{
  Move, TransitionAnswer, transition_result, illegal_transition, transition, record_rider,
  repoint_brand,
}
use smart_food_ops.Order.Activities.{
  create_order, ReserveResult, reserve_ok, reserve_item_unavailable, reserve_at_capacity,
  AuthResult, auth_ok, auth_declined, validate_and_reserve, authorize_payment, moved_as,
  confirm_move, accept_move, pick_up_move, deliver_move, settle_move, begin_cancel_move,
  finish_cancel_move, try_begin_cancel, validate_move, clear_move,
}
use smart_food_ops.Order.Kitchen.{
  Signal, answer_move, set_preparing, set_ready, owned, preparing_move, ready_move,
}
use smart_food_ops.Order.Graph.{
  Stage, stage_status, Legal, validates, clears, confirms, accepts, prepares, readies, picks_up,
  delivers, settles, begins_cancel, finishes_cancel,
}
use smart_food_ops.Order.Sound.{IsSound, is_later, is_later_refl, is_later_trans, Step}
use smart_food_ops.Order.Steps.{unchanged-Step, transition-Step, try_begin-Step}
use smart_food_ops.Order.Writes.{record_rider-Step, repoint_brand-Step, create_order-Step}

-- The activities that only move the order, the moment and the order their arguments.
pub data SagaMove : Type 0 where
  confirm_order mark_accepted mark_picked_up mark_delivered settle_order : SagaMove
  begin_cancel : Stage → CancelReason → SagaMove
  finish_cancel : CancelReason → SagaMove

abbrev pub move_of : SagaMove → Move
move_of confirm_order = confirm_move
move_of mark_accepted = accept_move
move_of mark_picked_up = pick_up_move
move_of mark_delivered = deliver_move
move_of settle_order = settle_move
move_of (begin_cancel stage reason) = begin_cancel_move (stage_status stage) reason
move_of (finish_cancel reason) = finish_cancel_move reason

move_of-Legal : (m : SagaMove) → Legal (move_of m)
move_of-Legal confirm_order = confirms
move_of-Legal mark_accepted = accepts
move_of-Legal mark_picked_up = picks_up
move_of-Legal mark_delivered = delivers
move_of-Legal settle_order = settles
move_of-Legal (begin_cancel stage reason) = begins_cancel stage reason
move_of-Legal (finish_cancel reason) = finishes_cancel reason

-- Each with the time at which it ran.
pub data Call : Type 0 where
  create : PlacementInput → Call
  reserve_stock : ReserveResult → ℕ → Call
  clear_payment : AuthResult → ℕ → Call
  move_order : SagaMove → ℕ → Call
  cancel_in_kitchen : CancelReason → ℕ → Call
  prepare_food : ℕ → ℕ → Call
  finish_food : ℕ → ℕ → Call
  stamp_rider : ℕ → ℕ → Call
  backfill_brand : ℕ → ℕ → Call

unfoldable pub serve_one : ℕ → Call → World → World
unfolding transition
serve_one now (create placement) w = (create_order placement w).1
serve_one now (reserve_stock outcome o) w = (validate_and_reserve now outcome o w).1
serve_one now (clear_payment outcome o) w = (authorize_payment now outcome o w).1
serve_one now (move_order move o) w = (transition now o (move_of move) w).1
serve_one now (cancel_in_kitchen reason o) w = (try_begin_cancel now reason o w).1
serve_one now (prepare_food r o) w = (set_preparing now r o w).2
serve_one now (finish_food r o) w = (set_ready now r o w).2
serve_one now (stamp_rider o rider_id) w = record_rider o rider_id w
serve_one now (backfill_brand r b) w = (repoint_brand r b w).1

unfoldable pub serve : List (ℕ × Call) → World → World
unfolding serve_one
serve [] w = w
serve ((now, call) ∷ calls) w = serve calls (serve_one now call w)

unfoldable pub fresh : World
fresh = record { orders = []; order_items = []; cancellations = []; outbox = []; published = [] }

abbrev pub status_in : Option Order → Option OrderStatus
status_in none = none
status_in (some row) = some row.status

moved_as-world : {A : Type 0} (a : A) (r : TransitionAnswer × World) → (moved_as a r).1 ≡ r.1
unfolding moved_as
moved_as-world a (transition_result _, w) = refl
moved_as-world a (illegal_transition _, w) = refl

answer_move-world :
    (target : OrderStatus) (signals : List Signal) (r : TransitionAnswer × World)
    → (answer_move target signals r).2 ≡ r.1
unfolding answer_move
answer_move-world target signals (transition_result _, w) = refl
answer_move-world target signals (illegal_transition _, w) = refl

set_preparing-Step : (now r o : ℕ) (w : World) → Step w (set_preparing now r o w).2
unfolding set_preparing
set_preparing-Step now r o w = elim (Option-cases (owned r o w)) [
  | inl foreign ↦ rw (foreign, set_preparing) (unchanged-Step w w refl)
  | inr (row, found) ↦
      rw (found, set_preparing, answer_move-world) (transition-Step now o preparing_move w prepares)
]

set_ready-Step : (now r o : ℕ) (w : World) → Step w (set_ready now r o w).2
unfolding set_ready
set_ready-Step now r o w = elim (Option-cases (owned r o w)) [
  | inl foreign ↦ rw (foreign, set_ready) (unchanged-Step w w refl)
  | inr (row, found) ↦
      rw (found, set_ready, answer_move-world) (transition-Step now o ready_move w readies)
]

reserve-Step :
    (now : ℕ) (outcome : ReserveResult) (o : ℕ) (w : World)
    → Step w (validate_and_reserve now outcome o w).1
unfolding validate_and_reserve
reserve-Step now reserve_ok o w =
    rw moved_as-world (transition-Step now o validate_move w validates)
reserve-Step now reserve_item_unavailable o w = unchanged-Step w w refl
reserve-Step now reserve_at_capacity o w = unchanged-Step w w refl

authorize-Step :
    (now : ℕ) (outcome : AuthResult) (o : ℕ) (w : World)
    → Step w (authorize_payment now outcome o w).1
unfolding authorize_payment
authorize-Step now auth_ok o w = rw moved_as-world (transition-Step now o clear_move w clears)
authorize-Step now auth_declined o w = unchanged-Step w w refl

pub serve_one-Step : (now : ℕ) (call : Call) (w : World) → Step w (serve_one now call w)
unfolding serve_one try_begin_cancel
serve_one-Step now (create placement) w = create_order-Step placement w
serve_one-Step now (reserve_stock outcome o) w = reserve-Step now outcome o w
serve_one-Step now (clear_payment outcome o) w = authorize-Step now outcome o w
serve_one-Step now (move_order move o) w =
    transition-Step now o (move_of move) w (move_of-Legal move)
serve_one-Step now (cancel_in_kitchen reason o) w = try_begin-Step now o reason w
serve_one-Step now (prepare_food r o) w = set_preparing-Step now r o w
serve_one-Step now (finish_food r o) w = set_ready-Step now r o w
serve_one-Step now (stamp_rider o rider_id) w = record_rider-Step o rider_id w
serve_one-Step now (backfill_brand r b) w = repoint_brand-Step r b w

pub serve-IsSound : (calls : List (ℕ × Call)) (w : World) → IsSound w → IsSound (serve calls w)
unfolding serve
serve-IsSound [] w s = s
serve-IsSound ((now, call) ∷ calls) w s =
    serve-IsSound calls (serve_one now call w) ((serve_one-Step now call w).sound s)

pub serve_later :
    (calls : List (ℕ × Call)) (w : World) (o : ℕ)
    → IsSound w
    → is_later (lookup o w.orders) (lookup o (serve calls w).orders) ≡ true
unfolding serve
serve_later [] w o s = is_later_refl (lookup o w.orders)
serve_later ((now, call) ∷ calls) w o s =
    let step = serve_one-Step now call w in
    is_later_trans (lookup o w.orders) (lookup o (serve_one now call w).orders) _ (step.later s o)
      (serve_later calls (serve_one now call w) o (step.sound s))
