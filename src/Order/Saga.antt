-- ===== src/Order/Saga.antt =====
-- services/order/order/workflows.py: `OrderWorkflow.run` with its unwind, and the marks of its child
-- `DeliveryWorkflow`. Temporal keeps the promise that an activity runs until it answers; which
-- answer, and where a deadline cut a forward step off, is the script's. What other writers do
-- while the saga waits are the script's calls.
use smart_food_ops.Prelude.{
  ℕ, Bool, true, false, Option, none, some, List, [], ◌∷◌, ◌++◌, if◌then◌else◌,
}
use smart_food_ops.Order.Rows.{OrderStatus, CancelReason, World}
use smart_food_ops.Order.Transitions.{Move, transition_result, illegal_transition, transition}
use smart_food_ops.Order.Activities.{
  ReserveResult, reserve_ok, AuthResult, auth_ok, auth_declined, validate_move, clear_move,
  confirm_move, begin_cancel_move, finish_cancel_move,
}
use smart_food_ops.Order.Kitchen.{Verdict}
use smart_food_ops.Order.Graph.{Stage, stage_status}
use smart_food_ops.Order.History.{Call, serve}

-- The calls that reach inventory, payment and dispatch. A reservation and an authorization say
-- whether they may have taken something; a void, whether it was carried out or answered by the
-- conflict that the client takes for success.
pub data RemoteCall : Type 0 where
  reserve_call authorize_call void_call : Bool → RemoteCall
  release_call capture_call commit_call cancel_dispatch_call : RemoteCall

pub record Saga : Type 0 where
  pub world : World
  pub remote : List RemoteCall

abbrev pub send : RemoteCall → Saga → Saga
send call s = record s { remote = s.remote ++ call ∷ [] }

-- How far the last attempt came before the deadline: not to the other service, to it but not to
-- the commit of the move, or past the commit with the answer lost. One that is still in flight
-- reaches the other service when the unwind is over; its move is then refused by the row.
pub data Progress : Type 0 where
  unsent sent committed in_flight : Progress

pub data Forward (A : Type 0) : Type 0 where
  in_time : A → Forward A
  out_of_time : Progress → Forward A

-- `_forward` returns, raises `_RanOutOfTime`, perhaps with a call in flight, or lets the
-- non-retryable fault through.
pub data Forwarded (A : Type 0) : Type 0 where
  returned : A → Forwarded A
  ran_out : Option RemoteCall → Forwarded A
  fault : Option OrderStatus → Forwarded A

unfoldable pub commit_move : {A : Type 0} → ℕ → ℕ → Move → Forwarded A → Saga → Forwarded A × Saga
unfolding transition
commit_move now o move answer s =
    let (result, w) = transition now o move s.world in
    elim result [
      | transition_result _ ↦ (answer, record s { world = w })
      | illegal_transition actual ↦ (fault actual, s)
    ]

unfoldable pub forward_reserve :
    ℕ → ℕ → Forward ReserveResult → Saga → Forwarded ReserveResult × Saga
unfolding commit_move
forward_reserve now o (in_time reserve_ok) s =
    commit_move now o validate_move (returned reserve_ok) (send (reserve_call true) s)
forward_reserve now o (in_time outcome) s = (returned outcome, send (reserve_call false) s)
forward_reserve now o (out_of_time unsent) s = (ran_out none, s)
forward_reserve now o (out_of_time in_flight) s = (ran_out (some (reserve_call true)), s)
forward_reserve now o (out_of_time sent) s = (ran_out none, send (reserve_call true) s)
forward_reserve now o (out_of_time committed) s =
    commit_move now o validate_move (ran_out none) (send (reserve_call true) s)

unfoldable pub forward_authorize : ℕ → ℕ → Forward AuthResult → Saga → Forwarded AuthResult × Saga
unfolding commit_move
forward_authorize now o (in_time auth_ok) s =
    commit_move now o clear_move (returned auth_ok) (send (authorize_call true) s)
forward_authorize now o (in_time auth_declined) s =
    (returned auth_declined, send (authorize_call false) s)
forward_authorize now o (out_of_time unsent) s = (ran_out none, s)
forward_authorize now o (out_of_time in_flight) s = (ran_out (some (authorize_call true)), s)
forward_authorize now o (out_of_time sent) s = (ran_out none, send (authorize_call true) s)
forward_authorize now o (out_of_time committed) s =
    commit_move now o clear_move (ran_out none) (send (authorize_call true) s)

-- Confirmation calls no other service, so only the commit matters; the value says nothing.
unfoldable pub forward_confirm : ℕ → ℕ → Forward Bool → Saga → Forwarded Bool × Saga
unfolding commit_move
forward_confirm now o (in_time _) s = commit_move now o confirm_move (returned true) s
forward_confirm now o (out_of_time committed) s = commit_move now o confirm_move (ran_out none) s
forward_confirm now o (out_of_time _) s = (ran_out none, s)

-- How `run` ends: with its string, or failed, by an illegal move or by a payment that cannot be
-- captured.
pub data Ending : Type 0 where
  ended_cancelled ended_settled : Ending
  failed_illegal : Option OrderStatus → Ending
  failed_capture : Ending

-- A step that only moves the order, and what follows it.
unfoldable pub move_then : ℕ → ℕ → Move → (Saga → Ending × Saga) → Saga → Ending × Saga
unfolding transition
move_then now o move next s =
    let (result, w) = transition now o move s.world in
    elim result [
      | transition_result _ ↦ next (record s { world = w })
      | illegal_transition actual ↦ (failed_illegal actual, s)
    ]

abbrev pub send_if : Bool → RemoteCall → Saga → Saga
send_if flag call s = if flag then send call s else s

-- `_unwind`; `voids` says whether a void is carried out.
unfoldable pub unwind : ℕ → Bool → ℕ → CancelReason → Bool → Bool → Saga → Ending × Saga
unfolding move_then
unwind now voids o reason void release s =
    move_then now o (finish_cancel_move reason) (λ done. (ended_cancelled, done))
      (send_if release release_call (send_if void (void_call voids) s))

-- `_cancel`
unfoldable pub cancel : ℕ → Bool → ℕ → Stage → CancelReason → Bool → Bool → Saga → Ending × Saga
unfolding move_then unwind
cancel now voids o expected reason void release s =
    move_then now o (begin_cancel_move (stage_status expected) reason)
      (unwind now voids o reason void release) s

-- The call that was in flight at the deadline reaches its service.
abbrev pub land : Option RemoteCall → Ending × Saga → Ending × Saga
land none r = r
land (some call) (ending, s) = (ending, send call s)

-- What the wait for the restaurant ends with.
pub record Fork : Type 0 where
  pub timed_out : Bool
  pub decision : Option Verdict
  pub cancel_requested : Bool

-- When the customer's cancel is seen, if it is, while the delivery runs.
pub data CancelSeen : Type 0 where
  never before_pickup after_pickup : CancelSeen

pub record Script : Type 0 where
  pub now : ℕ
  pub reserve : Forward ReserveResult
  pub authorize : Forward AuthResult
  pub confirm : Forward Bool
  pub fork : Fork
  pub voids : Bool
  pub in_kitchen : List (ℕ × Call)
  pub rider_found : Bool
  pub cancel_seen : CancelSeen
  pub on_road : List (ℕ × Call)
  pub capturable : Bool

abbrev pub others : List (ℕ × Call) → Saga → Saga
others calls s = record s { world = serve calls s.world }
