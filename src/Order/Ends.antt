-- ===== src/Order/Ends.antt =====
-- The runs of services/order/order/workflows.py that no restaurant accepts come to their end.
use smart_food_ops.Prelude.{
  ℕ, ◌≡◌, refl, sym, subst, ap, ◌∙◌, [], Bool, true, false, ◌||◌, none, some, nat_eq, arith,
}
use smart_food_ops.Table.{lookup}
use smart_food_ops.Order.Rows.{
  OrderStatus, placed, CancelReason, World, PlacementInput, payment_declined, item_unavailable,
  at_capacity, customer_cancelled, restaurant_timeout, restaurant_rejected,
}
use smart_food_ops.Order.Transitions.{Move, transition_result, transition}
use smart_food_ops.Order.Activities.{
  create_order, finish_cancel_move, begin_cancel_move, validate_move, clear_move, confirm_move,
  ReserveResult, reserve_ok, reserve_item_unavailable, reserve_at_capacity, AuthResult, auth_ok,
  auth_declined,
}
use smart_food_ops.Order.Kitchen.{accept}
use smart_food_ops.Order.Graph.{
  Stage, at_placed, at_validated, at_payment_cleared, at_confirmed, stage_status,
}
use smart_food_ops.Order.Replay.{has_status, transition_result-target}
use smart_food_ops.Order.Saga.{
  RemoteCall, reserve_call, authorize_call, void_call, release_call, Saga, send, send_if, Ending,
  ended_cancelled, move_then, unwind, cancel, Forwarded, returned, ran_out, fault, failed_illegal,
  commit_move, forward_reserve, forward_authorize, forward_confirm, in_time, Script,
}
use smart_food_ops.Order.Workflow.{
  after_fork, confirm_stage, authorize_stage, reserve_stage, run, verdict_of, out_of_deadline,
}
use smart_food_ops.Order.Writes.{created_row}

abbrev pub stands_at : OrderStatus → ℕ → Saga → Bool
stands_at status o s = has_status status (lookup o s.world.orders)

transition_goes :
    (now o : ℕ) (move : Move) (w : World)
    → has_status move.expected (lookup o w.orders) ≡ true
    → (transition now o move w).0 ≡ transition_result true
unfolding transition
transition_goes now o move w at = ground arith

move_then_ends :
    (now o : ℕ) (move : Move) (next : Saga → Ending × Saga) (ending : Ending) (s : Saga)
    → stands_at move.expected o s ≡ true
    → ((t : Saga) → stands_at move.target o t ≡ true → (next t).0 ≡ ending)
    → (move_then now o move next s).0 ≡ ending
unfolding move_then
move_then_ends now o move next ending s at after =
    let goes = transition_goes now o move s.world at in
    rw (goes, move_then) (after _ (transition_result-target now o move s.world true goes))

send_if-world : (flag : Bool) (call : RemoteCall) (s : Saga) → (send_if flag call s).world ≡ s.world
send_if-world flag call s = ground arith

pub cancel_ends :
    (now o : ℕ) (voids : Bool) (stage : Stage) (reason : CancelReason) (void release : Bool)
    (s : Saga)
    → stands_at (stage_status stage) o s ≡ true
    → (cancel now voids o stage reason void release s).0 ≡ ended_cancelled
unfolding cancel unwind
cancel_ends now o voids stage reason void release s at =
    move_then_ends now o (begin_cancel_move (stage_status stage) reason)
      (unwind now voids o reason void release) ended_cancelled s at
      (λ t at'.
        move_then_ends now o (finish_cancel_move reason) (λ done. (ended_cancelled, done))
          ended_cancelled (send_if release release_call (send_if void (void_call voids) t))
          (rw
            (
              send_if-world release release_call (send_if void (void_call voids) t),
              send_if-world void (void_call voids) t,
            )
            at')
          (λ u at''. refl))

-- The customer cancels, or the restaurant does not accept.
abbrev pub is_declined : Script → Bool
is_declined script =
    script.fork.cancel_requested || elim (verdict_of script.fork) [ some accept ↦ false | _ ↦ true ]

after_fork_ends :
    (script : Script) (o : ℕ) (s : Saga)
    → stands_at (stage_status at_confirmed) o s ≡ true
    → is_declined script ≡ true
    → (after_fork script o s).0 ≡ ended_cancelled
unfolding after_fork
after_fork_ends script o s at declined = ground (
  arith,
  declined,
  cancel_ends script.now o script.voids at_confirmed customer_cancelled true true s at,
  cancel_ends script.now o script.voids at_confirmed restaurant_rejected true true s at,
  cancel_ends script.now o script.voids at_confirmed restaurant_timeout true true s at,
)

pub commit_goes :
    {A : Type 0} (now o : ℕ) (move : Move) (answer : Forwarded A) (s : Saga)
    → stands_at move.expected o s ≡ true
    → commit_move now o move answer s
      ≡ (answer, record s { world = (transition now o move s.world).1 })
unfolding commit_move
commit_goes now o move answer s at = rw (transition_goes now o move s.world at, commit_move) refl

pub commit_stands :
    (now o : ℕ) (move : Move) (s : Saga)
    → stands_at move.expected o s ≡ true
    → stands_at move.target o (record s { world = (transition now o move s.world).1 }) ≡ true
commit_stands now o move s at =
    transition_result-target now o move s.world true (transition_goes now o move s.world at)

confirm_ends :
    (script : Script) (o : ℕ) (s : Saga) (b : Bool)
    → stands_at confirm_move.expected o s ≡ true
    → script.confirm ≡ in_time b
    → is_declined script ≡ true
    → (confirm_stage script o s).0 ≡ ended_cancelled
unfolding confirm_stage forward_confirm
confirm_ends script o s b at prompt declined =
    let answer =
      ap (λ step. forward_confirm script.now o step s) prompt
      ∙ commit_goes script.now o confirm_move (returned true) s at in
    subst
      (λ r.
        (elim r.0 as (λ _. Ending × Saga) [
          | returned _ ↦ after_fork script o r.1
          | ran_out late ↦ out_of_deadline script o at_payment_cleared late r.1
          | fault actual ↦ (failed_illegal actual, r.1)
        ]).0
        ≡ ended_cancelled)
      (sym answer)
      (after_fork_ends script o _ (commit_stands script.now o confirm_move s at) declined)

authorize_ends :
    (script : Script) (o : ℕ) (s : Saga) (a : AuthResult) (b : Bool)
    → stands_at clear_move.expected o s ≡ true
    → script.authorize ≡ in_time a
    → script.confirm ≡ in_time b
    → is_declined script ≡ true
    → (authorize_stage script o s).0 ≡ ended_cancelled
unfolding authorize_stage forward_authorize
authorize_ends script o s auth_declined b at prompt confirms declined =
    let answer = ap (λ step. forward_authorize script.now o step s) prompt in
    rw (ap (λ r. r.0) answer, ap (λ r. r.1) answer, authorize_stage)
      (cancel_ends script.now o script.voids at_validated payment_declined false true
        (send (authorize_call false) s) at)
authorize_ends script o s auth_ok b at prompt confirms declined =
    let answer =
      ap (λ step. forward_authorize script.now o step s) prompt
      ∙ commit_goes script.now o clear_move (returned auth_ok) (send (authorize_call true) s) at in
    rw (ap (λ r. r.0) answer, ap (λ r. r.1) answer, authorize_stage)
      (confirm_ends script o _ b
        (commit_stands script.now o clear_move (send (authorize_call true) s) at) confirms declined)

reserve_ends :
    (script : Script) (o : ℕ) (s : Saga) (r : ReserveResult) (a : AuthResult) (b : Bool)
    → stands_at placed o s ≡ true
    → script.reserve ≡ in_time r
    → script.authorize ≡ in_time a
    → script.confirm ≡ in_time b
    → is_declined script ≡ true
    → (reserve_stage script o s).0 ≡ ended_cancelled
unfolding reserve_stage forward_reserve
reserve_ends script o s reserve_item_unavailable a b at prompt authorizes confirms declined =
    let answer = ap (λ step. forward_reserve script.now o step s) prompt in
    rw (ap (λ r. r.0) answer, ap (λ r. r.1) answer, reserve_stage)
      (cancel_ends script.now o script.voids at_placed item_unavailable false false
        (send (reserve_call false) s) at)
reserve_ends script o s reserve_at_capacity a b at prompt authorizes confirms declined =
    let answer = ap (λ step. forward_reserve script.now o step s) prompt in
    rw (ap (λ r. r.0) answer, ap (λ r. r.1) answer, reserve_stage)
      (cancel_ends script.now o script.voids at_placed at_capacity false false
        (send (reserve_call false) s) at)
reserve_ends script o s reserve_ok a b at prompt authorizes confirms declined =
    let answer =
      ap (λ step. forward_reserve script.now o step s) prompt
      ∙ commit_goes script.now o validate_move (returned reserve_ok) (send (reserve_call true) s)
          at in
    rw (ap (λ r. r.0) answer, ap (λ r. r.1) answer, reserve_stage)
      (authorize_ends script o _ a b
        (commit_stands script.now o validate_move (send (reserve_call true) s) at) authorizes
        confirms declined)

-- For an order that is new to the database and steps that answer before their deadline, whatever
-- they answer: unless the restaurant accepts with no cancel before it, the run ends CANCELLED, and
-- no illegal move stops it.
pub declined_run_cancels :
    (script : Script) (placement : PlacementInput) (w : World) (r : ReserveResult) (a : AuthResult)
    (b : Bool)
    → lookup placement.order_id w.orders ≡ none
    → lookup placement.order_id w.order_items ≡ none
    → script.reserve ≡ in_time r
    → script.authorize ≡ in_time a
    → script.confirm ≡ in_time b
    → is_declined script ≡ true
    → (run script placement w).0 ≡ ended_cancelled
unfolding run
declined_run_cancels script placement w r a b absent free reserves authorizes confirms declined =
    reserve_ends script placement.order_id
      (record { world = (create_order placement w).1; remote = [] }) r a b
      (rw (created_row placement w absent free) refl) reserves authorizes confirms declined
