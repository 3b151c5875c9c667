-- ===== src/Order/Placement.antt =====
-- services/order/order/domain/service.py: `place` and `request_cancel`, over order_db and the
-- workflows that Temporal has started. What the catalog, the address and the pricing give, and how
-- Temporal answers, are arguments.
use smart_food_ops.Prelude.{
  ℕ, Bool, true, false, not, Option, none, some, List, nat_beq, nat_eq, if◌then◌else◌,
}
use smart_food_ops.Table.{Table, lookup, insert}
use smart_food_ops.Order.Rows.{
  OrderStatus, placed, validated, payment_cleared, confirmed, accepted, preparing, ready,
  cancelling, cancelled, refunded, Order, OrderItem, PlacementInput, World,
}
use smart_food_ops.Order.Activities.{create_order}

-- order_db, and the placement that each workflow `ord::{order_id}` was started with.
pub record Placing : Type 0 where
  pub db : World
  pub started : Table ℕ PlacementInput

-- What a priced cart and its address fix.
pub record Cart : Type 0 where
  pub restaurant_id : ℕ
  pub restaurant_name : ℕ
  pub brand_id : Option ℕ
  pub pricing_snapshot : ℕ
  pub address_snapshot : ℕ
  pub lines : List OrderItem

-- `refused` is a PricingError or an unknown address, `peer_down` any other exception of the three.
pub data Quoted : Type 0 where
  quoted : Cart → Quoted
  refused : Quoted
  peer_down : Quoted

-- How Temporal meets a call: it answers in time, after the row exists; it answers that the workflow
-- is durable; the workflow has finished; it accepts the call and the answer is lost; or it cannot be
-- reached.
pub data Reached : Type 0 where
  in_time too_slow closed lost unreachable : Reached

pub record PlaceCall : Type 0 where
  pub user_id : ℕ
  pub idem_key : ℕ
  pub request_hash : ℕ
  pub quote : Quoted
  pub on_place : Reached
  pub on_attach : Reached
  pub now : ℕ

pub data PlaceOutcome : Type 0 where
  placed_order : ℕ → OrderStatus → PlaceOutcome
  replayed : ℕ → OrderStatus → PlaceOutcome
  hash_mismatch : PlaceOutcome
  placement_pending : PlaceOutcome
  refusal : PlaceOutcome
  failure : PlaceOutcome

-- The repository's ownership-scoped read.
abbrev pub get_order : ℕ → ℕ → World → Option Order
get_order user_id order_id w = elim (lookup order_id w.orders) [
  | none ↦ none
  | some row ↦ if nat_beq row.user_id user_id then some row else none
]

abbrev pub acked : ℕ → Option OrderStatus × World → Table ℕ PlacementInput → PlaceOutcome × Placing
acked order_id (none, w) started = (failure, record { db = w; started = started })
acked order_id (some status, w) started =
    (placed_order order_id status, record { db = w; started = started })

-- The one workflow of the id: the first start keeps its placement.
abbrev pub start : PlacementInput → Table ℕ PlacementInput → PlacementInput × Table ℕ PlacementInput
start placement started = elim (lookup placement.order_id started) [
  | none ↦ (placement, insert placement.order_id placement started)
  | some first ↦ (first, started)
]

-- The answer from the row of a workflow that has finished.
abbrev pub adopted : ℕ → Option Order → Placing → PlaceOutcome × Placing
adopted order_id none s = (failure, s)
adopted order_id (some row) s = (placed_order order_id row.status, s)

-- `saga.place`, and the answer from the row when the workflow has finished.
abbrev pub saga_place : ℕ → Reached → PlacementInput → Placing → PlaceOutcome × Placing
saga_place user_id in_time placement s =
    let (first, started) = start placement s.started in
    acked placement.order_id (create_order first s.db) started
saga_place user_id too_slow placement s =
    (placement_pending, record s { started = (start placement s.started).1 })
saga_place user_id closed placement s =
    adopted placement.order_id (get_order user_id placement.order_id s.db) s
saga_place user_id lost placement s =
    (failure, record s { started = (start placement s.started).1 })
saga_place user_id unreachable placement s = (failure, s)

-- `_attach_if_running`: the refusal stands unless a workflow is making the order.
abbrev pub attach : Reached → ℕ → Option PlacementInput → Placing → PlaceOutcome × Placing
attach in_time order_id (some first) s = acked order_id (create_order first s.db) s.started
attach too_slow order_id (some first) s = (placement_pending, s)
attach _ order_id _ s = (refusal, s)

abbrev pub placement_of : PlaceCall → ℕ → Cart → PlacementInput
placement_of call order_id cart = record {
  order_id = order_id;
  user_id = call.user_id;
  restaurant_id = cart.restaurant_id;
  brand_id = cart.brand_id;
  restaurant_name = cart.restaurant_name;
  request_hash = call.request_hash;
  pricing_snapshot = cart.pricing_snapshot;
  address_snapshot = cart.address_snapshot;
  lines = cart.lines;
  placed_at = call.now;
}

abbrev pub place_new : PlaceCall → ℕ → Quoted → Placing → PlaceOutcome × Placing
place_new call order_id (quoted cart) s =
    saga_place call.user_id call.on_place (placement_of call order_id cart) s
place_new call order_id refused s = attach call.on_attach order_id (lookup order_id s.started) s
place_new call order_id peer_down s = (failure, s)

abbrev pub is_other_hash : ℕ → Option ℕ → Bool
is_other_hash request_hash none = false
is_other_hash request_hash (some stored) = not (nat_beq stored request_hash)

-- The row of the derived id answers, if there is one.
abbrev pub answered : PlaceCall → ℕ → Option Order → Placing → PlaceOutcome × Placing
answered call order_id none s = place_new call order_id call.quote s
answered call order_id (some row) s =
    if is_other_hash call.request_hash row.request_hash
    then (hash_mismatch, s)
    else (replayed order_id row.status, s)

-- `place`; the order id is derived from the user and the key.
unfoldable pub place : (ℕ → ℕ → ℕ) → PlaceCall → Placing → PlaceOutcome × Placing
place order_id_for call s =
    let order_id = order_id_for call.user_id call.idem_key in
    answered call order_id (get_order call.user_id order_id s.db) s

-- CANCELLED_FAMILY and CANCELLABLE_STATES
abbrev pub is_cancelled_family : OrderStatus → Bool
is_cancelled_family cancelling = true
is_cancelled_family cancelled = true
is_cancelled_family refunded = true
is_cancelled_family _ = false

abbrev pub is_cancellable : OrderStatus → Bool
is_cancellable placed = true
is_cancellable validated = true
is_cancellable payment_cleared = true
is_cancellable confirmed = true
is_cancellable accepted = true
is_cancellable preparing = true
is_cancellable ready = true
is_cancellable _ = false

pub data CancelOutcome : Type 0 where
  cancel_submitted : OrderStatus → CancelOutcome
  cancel_already_done : OrderStatus → CancelOutcome
  not_cancellable : OrderStatus → CancelOutcome
  order_not_found : CancelOutcome
  saga_unavailable : CancelOutcome
  assertion_failed : CancelOutcome

-- How the signal meets the workflow.
pub data Signalled : Type 0 where
  signal_sent signal_gone signal_failed : Signalled

-- What the row says by itself; none is a status that may still be cancelled.
abbrev pub classified : OrderStatus → Option CancelOutcome
classified status =
    if is_cancelled_family status
    then some (cancel_already_done status)
    else if is_cancellable status
    then none
    else some (not_cancellable status)

-- The answer of the row read again, whose status may still be cancelled or not.
abbrev pub reread : Option CancelOutcome → CancelOutcome
reread none = saga_unavailable
reread (some answer) = answer

abbrev pub reread_row : Option Order → CancelOutcome
reread_row none = assertion_failed
reread_row (some row) = reread (classified row.status)

-- The signal, when the row has not answered; and whether it was sent.
abbrev pub signal_cancel :
    Signalled → Option Order → OrderStatus → Option CancelOutcome → CancelOutcome × Bool
signal_cancel signalled after status (some answer) = (answer, false)
signal_cancel signal_sent after status none = (cancel_submitted status, true)
signal_cancel signal_gone after status none = (reread_row after, false)
signal_cancel signal_failed after status none = (saga_unavailable, false)

abbrev pub cancel_row : Signalled → (after before : Option Order) → CancelOutcome × Bool
cancel_row signalled after none = (order_not_found, false)
cancel_row signalled after (some row) =
    signal_cancel signalled after row.status (classified row.status)

-- `request_cancel`: the row is read before the signal, and again when the workflow is gone.
unfoldable pub request_cancel : ℕ → ℕ → Signalled → (before after : World) → CancelOutcome × Bool
request_cancel user_id order_id signalled before after =
    cancel_row signalled (get_order user_id order_id after) (get_order user_id order_id before)
