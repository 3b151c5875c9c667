-- ===== src/Order/Kitchen.antt =====
-- services/order/order/domain/kitchen.py: the restaurant's verdict and its two moves. The saga's
-- answer to a signal, that it listens or is gone, is an argument.
use smart_food_ops.Prelude.{
  ℕ, Bool, true, false, ◌||◌, Option, none, some, List, [], ◌∷◌, nat_beq, nat_eq, if◌then◌else◌,
}
use smart_food_ops.Table.{lookup}
use smart_food_ops.Order.Rows.{
  OrderStatus, confirmed, accepted, preparing, ready, picked_up, delivered, settled, cancelling,
  cancelled, refunded, status_beq, CancelReason, restaurant_rejected, restaurant_timeout,
  customer_cancelled, order_preparing, order_ready, Order, World,
}
use smart_food_ops.Order.Transitions.{
  Move, TransitionAnswer, transition_result, illegal_transition, transition, is_one_of,
}

pub data Verdict : Type 0 where
  accept reject : Verdict

abbrev pub is_accept : Verdict → Bool
is_accept accept = true
is_accept reject = false

pub data Signal : Type 0 where
  decision_signal : ℕ → Verdict → Signal
  food_ready_signal : ℕ → Signal

-- The words of `AlreadyDecided`.
pub data Closed : Type 0 where
  window_closed was_accepted was_rejected window_timed_out customer_left : Closed

pub data Answer : Type 0 where
  decision_result : Bool → OrderStatus → Answer
  status_now : OrderStatus → Answer
  order_not_found : Answer
  already_decided : Closed → Answer
  kitchen_state_conflict : Option OrderStatus → Answer

abbrev pub accepted_family : List OrderStatus
accepted_family = accepted ∷ preparing ∷ ready ∷ picked_up ∷ delivered ∷ settled ∷ []

abbrev pub cancel_family : List OrderStatus
cancel_family = cancelling ∷ cancelled ∷ refunded ∷ []

abbrev pub is_own : ℕ → Order → Bool
is_own restaurant_id row =
    nat_beq restaurant_id row.restaurant_id
    || elim row.brand_id [ none ↦ false | some brand_id ↦ nat_beq restaurant_id brand_id ]

-- `_owned`: the claim is the branch or its brand.
unfoldable pub owned : ℕ → ℕ → World → Option Order
owned restaurant_id order_id w = elim (lookup order_id w.orders) [
  | none ↦ none
  | some row ↦ if is_own restaurant_id row then some row else none
]

-- `row.cancel_reason`, from the outer join.
abbrev pub cancel_reason_of : ℕ → World → Option CancelReason
cancel_reason_of order_id w = elim (lookup order_id w.cancellations) [
  | none ↦ none
  | some cancellation ↦ some cancellation.reason
]

unfoldable pub decide_cancelled : OrderStatus → Option CancelReason → Verdict → Answer
decide_cancelled status (some restaurant_rejected) reject = decision_result false status
decide_cancelled status (some restaurant_rejected) accept = already_decided was_rejected
decide_cancelled status (some restaurant_timeout) verdict = already_decided window_timed_out
decide_cancelled status (some customer_cancelled) verdict = already_decided customer_left
decide_cancelled status _ verdict = kitchen_state_conflict (some status)

-- What `decide` answers, and the signals it sent.
unfoldable pub decide_row :
    Bool → ℕ → OrderStatus → Option CancelReason → Verdict → Answer × List Signal
unfolding decide_cancelled
decide_row listening order_id status cancel_reason verdict =
    if status_beq status confirmed
    then (if listening
        then (decision_result true status, decision_signal order_id verdict ∷ [])
        else (already_decided window_closed, []))
    else if is_one_of accepted_family status
    then (if is_accept verdict
        then (decision_result false status, [])
        else (already_decided was_accepted, []))
    else if is_one_of cancel_family status
    then (decide_cancelled status cancel_reason verdict, [])
    else (kitchen_state_conflict (some status), [])

unfoldable pub decide : Bool → ℕ → ℕ → Verdict → World → Answer × List Signal
unfolding owned decide_row
decide listening restaurant_id order_id verdict w = elim (owned restaurant_id order_id w) [
  | none ↦ (order_not_found, [])
  | some row ↦ decide_row listening order_id row.status (cancel_reason_of order_id w) verdict
]

abbrev pub preparing_move : Move
preparing_move = record {
  expected = accepted;
  target = preparing;
  event = some order_preparing;
  cancel_reason = none;
}

abbrev pub ready_move : Move
ready_move = record {
  expected = preparing;
  target = ready;
  event = some order_ready;
  cancel_reason = none;
}

-- `_move`, and the signal that follows a move that stands.
unfoldable pub answer_move :
    OrderStatus → List Signal → TransitionAnswer × World → Answer × List Signal × World
answer_move target signals (transition_result _, w) = (status_now target, signals, w)
answer_move target signals (illegal_transition actual, w) = (kitchen_state_conflict actual, [], w)

unfoldable pub set_preparing : ℕ → ℕ → ℕ → World → Answer × List Signal × World
unfolding owned transition answer_move
set_preparing now restaurant_id order_id w = elim (owned restaurant_id order_id w) [
  | none ↦ (order_not_found, [], w)
  | some _ ↦ answer_move preparing [] (transition now order_id preparing_move w)
]

-- A saga that is gone is logged: the answer does not depend on it.
unfoldable pub set_ready : ℕ → ℕ → ℕ → World → Answer × List Signal × World
unfolding owned transition answer_move
set_ready now restaurant_id order_id w = elim (owned restaurant_id order_id w) [
  | none ↦ (order_not_found, [], w)
  | some _ ↦
      answer_move ready (food_ready_signal order_id ∷ []) (transition now order_id ready_move w)
]
