-- ===== src/Order/Workflow.antt =====
-- services/order/order/workflows.py: the run itself, from the order's creation to its end.
use smart_food_ops.Prelude.{ℕ, Bool, true, false, not, Option, none, some, [], if◌then◌else◌}
use smart_food_ops.Order.Rows.{
  item_unavailable, at_capacity, payment_declined, restaurant_rejected, restaurant_timeout,
  customer_cancelled, system_timeout, no_rider_available, CancelReason, World, PlacementInput,
}
use smart_food_ops.Order.Activities.{
  create_order, reserve_ok, reserve_item_unavailable, reserve_at_capacity, auth_ok, auth_declined,
  accept_move, pick_up_move, deliver_move, settle_move, try_begin_cancel,
}
use smart_food_ops.Order.Kitchen.{Verdict, accept, reject}
use smart_food_ops.Order.Graph.{Stage, at_placed, at_validated, at_payment_cleared, at_confirmed}
use smart_food_ops.Order.Saga.{
  RemoteCall, land, Saga, send, capture_call, commit_call, cancel_dispatch_call, returned, ran_out,
  fault, forward_reserve, forward_authorize, forward_confirm, Ending, ended_settled, failed_illegal,
  failed_capture, move_then, unwind, cancel, Fork, never, before_pickup, after_pickup, Script,
  others,
}

-- CAPTURE_PAYMENT and SETTLE_ORDER
unfoldable pub capture_and_settle : Script → ℕ → Saga → Ending × Saga
unfolding move_then
capture_and_settle script o s =
    if script.capturable
    then move_then script.now o settle_move (λ done. (ended_settled, done))
        (send commit_call (send capture_call s))
    else (failed_capture, s)

-- A cancel in the kitchen's window, refereed by the row: won, and unwound, or too late. `won` is
-- the call that frees the rider, of the parent or of the cancelled child.
unfoldable pub try_cancel :
    Script → ℕ → CancelReason → (Saga → Saga) → (Saga → Ending × Saga) → Saga → Ending × Saga
unfolding unwind
try_cancel script o reason won lost s =
    let (ok, w) = try_begin_cancel script.now reason o s.world in
    if ok
    then unwind script.now script.voids o reason true true (won (record s { world = w }))
    else lost (record s { world = w })

-- The child from the pickup on, and what its outcome "DELIVERED" leads to.
unfoldable pub deliver : Script → ℕ → Saga → Ending × Saga
unfolding move_then capture_and_settle
deliver script o s =
    move_then script.now o deliver_move (capture_and_settle script o) (others script.on_road s)

-- The child from the kitchen on: a courier who picks up, or "NO_RIDER" and the parent's attempt. The
-- offers are not modelled: the script says whether they found a rider, whose stamp is one of its
-- calls.
unfoldable pub find_rider : Script → ℕ → (Saga → Ending × Saga) → Saga → Ending × Saga
unfolding move_then try_cancel capture_and_settle
find_rider script o picked_up s =
    if script.rider_found
    then move_then script.now o pick_up_move picked_up s
    else try_cancel script o no_rider_available (send cancel_dispatch_call)
        (capture_and_settle script o) s

-- `_deliver_or_cancel`, and the capture that follows a delivery.
unfoldable pub deliver_or_cancel : Script → ℕ → Saga → Ending × Saga
unfolding find_rider deliver try_cancel
deliver_or_cancel script o s =
    let cooked = others script.in_kitchen s in
    elim script.cancel_seen [
      | never ↦ find_rider script o (deliver script o) cooked
      | before_pickup ↦
          try_cancel script o customer_cancelled (send cancel_dispatch_call)
            (find_rider script o (deliver script o)) cooked
      | after_pickup ↦
          find_rider script o
            (try_cancel script o customer_cancelled (send cancel_dispatch_call) (deliver script o))
            cooked
    ]

abbrev pub verdict_of : Fork → Option Verdict
verdict_of fork = if fork.timed_out then none else fork.decision

-- From the wait for the restaurant on.
unfoldable pub after_fork : Script → ℕ → Saga → Ending × Saga
unfolding cancel move_then deliver_or_cancel
after_fork script o s =
    if script.fork.cancel_requested
    then cancel script.now script.voids o at_confirmed customer_cancelled true true s
    else elim (verdict_of script.fork) [
      | some accept ↦ move_then script.now o accept_move (deliver_or_cancel script o) s
      | some reject ↦ cancel script.now script.voids o at_confirmed restaurant_rejected true true s
      | none ↦ cancel script.now script.voids o at_confirmed restaurant_timeout true true s
    ]

abbrev pub is_before : Stage → Bool
is_before at_placed = true
is_before _ = false

-- The handler of `_RanOutOfTime`.
abbrev pub out_of_deadline : Script → ℕ → Stage → Option RemoteCall → Saga → Ending × Saga
out_of_deadline script o stage late s =
    land late (cancel script.now script.voids o stage system_timeout (not (is_before stage)) true s)

unfoldable pub confirm_stage : Script → ℕ → Saga → Ending × Saga
unfolding forward_confirm cancel after_fork
confirm_stage script o s =
    let (answer, s') = forward_confirm script.now o script.confirm s in
    elim answer [
      | returned _ ↦ after_fork script o s'
      | ran_out late ↦ out_of_deadline script o at_payment_cleared late s'
      | fault actual ↦ (failed_illegal actual, s')
    ]

unfoldable pub authorize_stage : Script → ℕ → Saga → Ending × Saga
unfolding forward_authorize cancel confirm_stage
authorize_stage script o s =
    let (answer, s') = forward_authorize script.now o script.authorize s in
    elim answer [
      | returned auth_ok ↦ confirm_stage script o s'
      | returned auth_declined ↦
          cancel script.now script.voids o at_validated payment_declined false true s'
      | ran_out late ↦ out_of_deadline script o at_validated late s'
      | fault actual ↦ (failed_illegal actual, s')
    ]

unfoldable pub reserve_stage : Script → ℕ → Saga → Ending × Saga
unfolding forward_reserve cancel authorize_stage
reserve_stage script o s =
    let (answer, s') = forward_reserve script.now o script.reserve s in
    elim answer [
      | returned reserve_ok ↦ authorize_stage script o s'
      | returned reserve_item_unavailable ↦
          cancel script.now script.voids o at_placed item_unavailable false false s'
      | returned reserve_at_capacity ↦
          cancel script.now script.voids o at_placed at_capacity false false s'
      | ran_out late ↦ out_of_deadline script o at_placed late s'
      | fault actual ↦ (failed_illegal actual, s')
    ]

-- `OrderWorkflow.run`
unfoldable pub run : Script → PlacementInput → World → Ending × Saga
unfolding create_order reserve_stage
run script placement w =
    let (_, created) = create_order placement w in
    reserve_stage script placement.order_id (record { world = created; remote = [] })
