-- ===== src/Order/Transitions.antt =====
-- services/order/order/domain/transitions.py, the one writer of `orders`, with `insert_order` and
-- `record_cancellation` of adapters/repo.py. Each function is one transaction.
use smart_food_ops.Prelude.{
  ℕ, ◌+◌, Bool, true, false, Option, none, some, List, [], ◌∷◌, ◌++◌, nat_beq, nat_eq,
  if◌then◌else◌, ◌&&◌, ◌||◌,
}
use smart_food_ops.Table.{Table, lookup, insert_new, update_where}
use smart_food_ops.Order.Rows.{
  OrderStatus, payment_cleared, confirmed, accepted, preparing, ready, picked_up, cancelling,
  status_beq, CancelReason, EventType, Milestones, Order, OrderItem, Cancellation, FullState,
  moved_event, World,
}

-- `MILESTONES.get(target)`, and the column written.
abbrev pub stamp : OrderStatus → ℕ → Milestones → Milestones
stamp payment_cleared now m = record m { payment_cleared_at = some now }
stamp confirmed now m = record m { confirmed_at = some now }
stamp accepted now m = record m { accepted_at = some now }
stamp preparing now m = record m { preparing_at = some now }
stamp ready now m = record m { ready_at = some now }
stamp picked_up now m = record m { picked_up_at = some now }
stamp _ now m = m

abbrev pub items_of : ℕ → World → List OrderItem
items_of order_id w = elim (lookup order_id w.order_items) [ none ↦ [] | some items ↦ items ]

unfoldable pub full_state :
    ℕ → OrderStatus → ℕ → Option CancelReason → Order → List OrderItem → FullState
full_state order_id status now cancel_reason order items = record {
  order_id = order_id;
  user_id = order.user_id;
  restaurant_id = order.restaurant_id;
  brand_id = order.brand_id;
  restaurant_name = order.restaurant_name_snapshot;
  status = status;
  items = items;
  totals = order.pricing_snapshot;
  delivery_address = order.delivery_address_snapshot;
  cancel_reason = cancel_reason;
  rider_id = order.rider_id;
  milestones = order.milestones;
  placed_at = order.placed_at;
  occurred_at = now;
}

-- ON CONFLICT DO NOTHING: the first reason stays.
abbrev pub record_cancellation : ℕ → CancelReason → ℕ → Table ℕ Cancellation → Table ℕ Cancellation
record_cancellation order_id reason now cancellations =
    elim (insert_new order_id (record { reason = reason; cancelled_at = now }) cancellations) [
      | none ↦ cancellations
      | some changed ↦ changed
    ]

abbrev pub record_reason : ℕ → Option CancelReason → ℕ → Table ℕ Cancellation → Table ℕ Cancellation
record_reason order_id none now cancellations = cancellations
record_reason order_id (some reason) now cancellations =
    record_cancellation order_id reason now cancellations

-- The event, made from the row as the UPDATE left it; `.one()` always finds that row.
unfoldable pub stage_move :
    ℕ → OrderStatus → Option EventType → ℕ → Option CancelReason → World → World
unfolding full_state
stage_move order_id target none now cancel_reason w = w
stage_move order_id target (some event) now cancel_reason w = elim (lookup order_id w.orders) [
  | none ↦ w
  | some order ↦
      let state = full_state order_id target now cancel_reason order (items_of order_id w) in
      record w { outbox = w.outbox ++ moved_event event state ∷ [] }
]

-- `illegal_transition` carries the status found, or none for "absent".
pub data TransitionAnswer : Type 0 where
  transition_result : Bool → TransitionAnswer
  illegal_transition : Option OrderStatus → TransitionAnswer

abbrev pub moved_row : OrderStatus → ℕ → Order → Order
moved_row target now row = record row {
  status = target;
  updated_at = now;
  milestones = stamp target now row.milestones;
}

abbrev pub publish_status : ℕ → OrderStatus → World → World
publish_status order_id status w = record w { published = w.published ++ (order_id, status) ∷ [] }

-- What a guarded move is asked for.
pub record Move : Type 0 where
  pub expected : OrderStatus
  pub target : OrderStatus
  pub event : Option EventType
  pub cancel_reason : Option CancelReason

unfoldable pub transition : ℕ → ℕ → Move → World → TransitionAnswer × World
unfolding stage_move
transition now order_id move w =
    let (moved, orders) =
      update_where order_id (λ row. status_beq row.status move.expected) (moved_row move.target now)
        w.orders in
    if moved
    then (
      transition_result true,
      publish_status order_id move.target (
          stage_move order_id move.target move.event now move.cancel_reason (record w {
            orders = orders;
            cancellations = record_reason order_id move.cancel_reason now w.cancellations;
          })),
    )
    else elim (lookup order_id w.orders) [
      | none ↦ (illegal_transition none, w)
      | some current ↦
          if status_beq current.status move.target
          then (transition_result false, w)
          else (illegal_transition (some current.status), w)
    ]

unfoldable pub record_rider : ℕ → ℕ → World → World
record_rider order_id rider_id w = record w {
  orders =
      (update_where order_id (λ _. true) (λ row. record row { rider_id = some rider_id })
        w.orders).1;
}

abbrev pub lacks_brand : ℕ → Order → Bool
lacks_brand restaurant_id row =
    nat_beq row.restaurant_id restaurant_id && elim row.brand_id [ none ↦ true | some _ ↦ false ]

-- The rows healed, and how many.
unfoldable pub repoint_rows : ℕ → ℕ → Table ℕ Order → ℕ × Table ℕ Order
repoint_rows restaurant_id brand_id [] = (0, [])
repoint_rows restaurant_id brand_id ((order_id, row) ∷ rest) =
    let (healed, rows) = repoint_rows restaurant_id brand_id rest in
    if lacks_brand restaurant_id row
    then (healed + 1, (order_id, record row { brand_id = some brand_id }) ∷ rows)
    else (healed, (order_id, row) ∷ rows)

unfoldable pub repoint_brand : ℕ → ℕ → World → ℕ × World
unfolding repoint_rows
repoint_brand restaurant_id brand_id w =
    let (healed, orders) = repoint_rows restaurant_id brand_id w.orders in
    (healed, record w { orders = orders })

abbrev pub is_one_of : List OrderStatus → OrderStatus → Bool
is_one_of [] status = false
is_one_of (s ∷ rest) status = status_beq s status || is_one_of rest status

-- The set-guarded move to CANCELLING: whether the order is now CANCELLING.
unfoldable pub begin_cancel_from : ℕ → ℕ → List OrderStatus → CancelReason → World → Bool × World
begin_cancel_from now order_id allowed reason w =
    let (applied, orders) =
      update_where order_id (λ row. is_one_of allowed row.status)
        (λ row. record row { status = cancelling; updated_at = now }) w.orders in
    if applied
    then (
      true,
      publish_status order_id cancelling (record w {
        orders = orders;
        cancellations = record_cancellation order_id reason now w.cancellations;
      }),
    )
    else elim (lookup order_id w.orders) [
      | none ↦ (false, w)
      | some current ↦ (status_beq current.status cancelling, w)
    ]
