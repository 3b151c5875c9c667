-- ===== src/Order/Activities.antt =====
-- services/order/order/activities.py: the activities that write order_db. What inventory and
-- payment answered is an argument; a retry of an activity is another call of it.
use smart_food_ops.Prelude.{
  ℕ, Bool, true, false, Option, none, some, List, [], ◌∷◌, ◌++◌, nat_eq, if◌then◌else◌,
}
use smart_food_ops.Table.{lookup, insert_new}
use smart_food_ops.Order.Rows.{
  OrderStatus, placed, validated, payment_cleared, confirmed, accepted, preparing, ready, picked_up,
  delivered, settled, cancelling, cancelled, CancelReason, order_confirmed, order_accepted,
  order_picked_up, order_delivered, order_settled, order_cancelled, no_milestones, Order,
  placed_event, World, PlacementInput,
}
use smart_food_ops.Order.Transitions.{
  Move, TransitionAnswer, transition_result, illegal_transition, transition, begin_cancel_from,
  publish_status,
}

abbrev pub placed_row : PlacementInput → Order
placed_row placement = record {
  user_id = placement.user_id;
  restaurant_id = placement.restaurant_id;
  brand_id = placement.brand_id;
  restaurant_name_snapshot = placement.restaurant_name;
  status = placed;
  request_hash = some placement.request_hash;
  pricing_snapshot = placement.pricing_snapshot;
  delivery_address_snapshot = placement.address_snapshot;
  rider_id = none;
  placed_at = placement.placed_at;
  updated_at = placement.placed_at;
  milestones = no_milestones;
}

-- `_insert_placement`: three writes, or the rollback of an integrity error.
unfoldable pub insert_placement : PlacementInput → World → Bool × World
insert_placement placement w =
    elim (insert_new placement.order_id (placed_row placement) w.orders) [
      | none ↦ (false, w)
      | some orders ↦ elim (insert_new placement.order_id placement.lines w.order_items) [
        | none ↦ (false, w)
        | some order_items ↦ (
          true,
          publish_status placement.order_id placed (record w {
            orders = orders;
            order_items = order_items;
            outbox =
                w.outbox
                ++ placed_event placement.order_id (placed_row placement) placement.lines ∷ [];
          }),
        )
      ]
    ]

-- `_adopt_existing`; none is its failed assertion.
abbrev pub adopt_existing : PlacementInput → World → Option OrderStatus
adopt_existing placement w = elim (lookup placement.order_id w.orders) [
  | none ↦ none
  | some row ↦ some row.status
]

unfoldable pub create_order : PlacementInput → World → Option OrderStatus × World
unfolding insert_placement
create_order placement w =
    let (inserted, w') = insert_placement placement w in
    if inserted then (some placed, w') else (adopt_existing placement w', w')

-- The moves that the activities ask for.
abbrev pub validate_move : Move
validate_move = record { expected = placed; target = validated; event = none; cancel_reason = none }

abbrev pub clear_move : Move
clear_move = record {
  expected = validated;
  target = payment_cleared;
  event = none;
  cancel_reason = none;
}

abbrev pub confirm_move : Move
confirm_move = record {
  expected = payment_cleared;
  target = confirmed;
  event = some order_confirmed;
  cancel_reason = none;
}

abbrev pub accept_move : Move
accept_move = record {
  expected = confirmed;
  target = accepted;
  event = some order_accepted;
  cancel_reason = none;
}

abbrev pub pick_up_move : Move
pick_up_move = record {
  expected = ready;
  target = picked_up;
  event = some order_picked_up;
  cancel_reason = none;
}

abbrev pub deliver_move : Move
deliver_move = record {
  expected = picked_up;
  target = delivered;
  event = some order_delivered;
  cancel_reason = none;
}

abbrev pub settle_move : Move
settle_move = record {
  expected = delivered;
  target = settled;
  event = some order_settled;
  cancel_reason = none;
}

abbrev pub begin_cancel_move : OrderStatus → CancelReason → Move
begin_cancel_move expected reason = record {
  expected = expected;
  target = cancelling;
  event = none;
  cancel_reason = some reason;
}

abbrev pub finish_cancel_move : CancelReason → Move
finish_cancel_move reason = record {
  expected = cancelling;
  target = cancelled;
  event = some order_cancelled;
  cancel_reason = some reason;
}

-- An activity's answer, or the non-retryable IllegalTransition.
pub data Result (A : Type 0) : Type 0 where
  answered : A → Result A
  illegal : Option OrderStatus → Result A

unfoldable pub moved_as : {A : Type 0} → A → TransitionAnswer × World → Result A × World
moved_as a (transition_result _, w) = (answered a, w)
moved_as a (illegal_transition actual, w) = (illegal actual, w)

pub data ReserveResult : Type 0 where
  reserve_ok reserve_item_unavailable reserve_at_capacity : ReserveResult

pub data AuthResult : Type 0 where
  auth_ok auth_declined : AuthResult

unfoldable pub validate_and_reserve : ℕ → ReserveResult → ℕ → World → Result ReserveResult × World
unfolding moved_as
validate_and_reserve now reserve_ok order_id w =
    moved_as reserve_ok (transition now order_id validate_move w)
validate_and_reserve now outcome order_id w = (answered outcome, w)

unfoldable pub authorize_payment : ℕ → AuthResult → ℕ → World → Result AuthResult × World
unfolding moved_as
authorize_payment now auth_ok order_id w = moved_as auth_ok (transition now order_id clear_move w)
authorize_payment now auth_declined order_id w = (answered auth_declined, w)

abbrev pub cancellable_kitchen_states : List OrderStatus
cancellable_kitchen_states = accepted ∷ preparing ∷ ready ∷ []

unfoldable pub try_begin_cancel : ℕ → CancelReason → ℕ → World → Bool × World
try_begin_cancel now reason order_id w =
    begin_cancel_from now order_id cancellable_kitchen_states reason w
