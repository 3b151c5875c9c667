-- ===== src/Order/Deadline.antt =====
-- The deadline of services/order/order/workflows.py, when it strikes after a step has committed.
use smart_food_ops.Prelude.{ℕ, ◌≡◌, refl, ap, ◌∙◌, Bool, true, false, none, some, [], nat_eq, arith}
use smart_food_ops.Table.{lookup}
use smart_food_ops.Order.Rows.{
  Order, placed, validated, status_beq, CancelReason, system_timeout, World, PlacementInput,
}
use smart_food_ops.Order.Transitions.{illegal_transition, transition}
use smart_food_ops.Order.Activities.{validate_move, create_order, begin_cancel_move, placed_row}
use smart_food_ops.Order.Graph.{at_placed}
use smart_food_ops.Order.Saga.{
  reserve_call, Saga, send, cancel, failed_illegal, move_then, Script, out_of_time, committed,
  ran_out, commit_move, forward_reserve,
}
use smart_food_ops.Order.Workflow.{reserve_stage, run}
use smart_food_ops.Order.Holdings.{held, after_calls}
use smart_food_ops.Order.Replay.{has_status, lookup-moved}
use smart_food_ops.Order.Steps.{transition_matched}
use smart_food_ops.Order.Writes.{created_row}

begin_refused :
    (now o : ℕ) (reason : CancelReason) (w : World)
    → has_status validated (lookup o w.orders) ≡ true
    → (transition now o (begin_cancel_move placed reason) w).0 ≡ illegal_transition (some validated)
unfolding transition
begin_refused now o reason w at = ground arith

cancel_refused :
    (now o : ℕ) (voids : Bool) (reason : CancelReason) (void release : Bool) (s : Saga)
    → has_status validated (lookup o s.world.orders) ≡ true
    → cancel now voids o at_placed reason void release s ≡ (failed_illegal (some validated), s)
unfolding cancel move_then
cancel_refused now o voids reason void release s at =
    rw (begin_refused now o reason s.world at, move_then) refl

-- Validation committed, and its answer was lost.
validated_late :
    (now o : ℕ) (s : Saga) (row : Order)
    → lookup o s.world.orders ≡ some row
    → status_beq row.status placed ≡ true
    → forward_reserve now o (out_of_time committed) s ≡ (
      ran_out none,
      record (send (reserve_call true) s) { world = (transition now o validate_move s.world).1 },
    )
unfolding forward_reserve commit_move
validated_late now o s row found fits =
    rw (ap (λ r. r.0) (transition_matched now o validate_move s.world row found fits), commit_move)
      refl

abbrev validated_saga : ℕ → ℕ → Saga → Saga
validated_saga now o s = record (send (reserve_call true) s) {
  world = (transition now o validate_move s.world).1;
}

reserve_stage_late :
    (script : Script) (o : ℕ) (s : Saga) (row : Order)
    → lookup o s.world.orders ≡ some row
    → status_beq row.status placed ≡ true
    → script.reserve ≡ out_of_time committed
    → reserve_stage script o s ≡ (failed_illegal (some validated), validated_saga script.now o s)
unfolding reserve_stage
reserve_stage_late script o s row found fits late =
    let answer =
      ap (λ step. forward_reserve script.now o step s) late
      ∙ validated_late script.now o s row found fits in
    rw (ap (λ r. r.0) answer, ap (λ r. r.1) answer, reserve_stage)
      (cancel_refused script.now o script.voids system_timeout false true
        (validated_saga script.now o s)
        (rw (lookup-moved script.now o validate_move s.world row found fits) refl))

-- For an order that is new to the database: if the deadline strikes after the reservation's last
-- attempt has committed its move, with the answer lost, then the run fails on an illegal move
-- instead of cancelling the order, and the reserved stock is not given back.
pub deadline_strands_stock :
    (script : Script) (placement : PlacementInput) (w : World)
    → lookup placement.order_id w.orders ≡ none
    → lookup placement.order_id w.order_items ≡ none
    → script.reserve ≡ out_of_time committed
    → ((run script placement w).0 ≡ failed_illegal (some validated))
      × ((held (run script placement w).1).stock ≡ true)
unfolding run held after_calls
deadline_strands_stock script placement w absent free late =
    rw
      (reserve_stage_late script placement.order_id
        (record { world = (create_order placement w).1; remote = [] }) (placed_row placement)
        (created_row placement w absent free) refl late)
      (refl, refl)
