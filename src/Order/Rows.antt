-- ===== src/Order/Rows.antt =====
-- services/order/order/db.py and values.py: the tables of order_db and the words of the saga.
-- Identifiers and the JSON documents that are only copied (prices, address) are numbers.
use smart_food_ops.Prelude.{ℕ, Bool, Option, none, List, nat_beq}
use smart_food_ops.Table.{Table}

pub data OrderStatus : Type 0 where
  placed validated payment_cleared confirmed accepted preparing ready picked_up delivered settled
        cancelling cancelled refunded :
      OrderStatus

-- The place of a status in `STATUSES`.
abbrev pub status_index : OrderStatus → ℕ
status_index placed = 0
status_index validated = 1
status_index payment_cleared = 2
status_index confirmed = 3
status_index accepted = 4
status_index preparing = 5
status_index ready = 6
status_index picked_up = 7
status_index delivered = 8
status_index settled = 9
status_index cancelling = 10
status_index cancelled = 11
status_index refunded = 12

abbrev pub status_beq : OrderStatus → OrderStatus → Bool
status_beq s t = nat_beq (status_index s) (status_index t)

pub data CancelReason : Type 0 where
  item_unavailable at_capacity payment_declined restaurant_rejected restaurant_timeout
        customer_cancelled system_timeout no_rider_available :
      CancelReason

pub data EventType : Type 0 where
  order_confirmed order_accepted order_preparing order_ready order_picked_up order_delivered
        order_settled order_cancelled :
      EventType

-- The columns of `MILESTONES`.
pub record Milestones : Type 0 where
  pub payment_cleared_at : Option ℕ
  pub confirmed_at : Option ℕ
  pub accepted_at : Option ℕ
  pub preparing_at : Option ℕ
  pub ready_at : Option ℕ
  pub picked_up_at : Option ℕ

abbrev pub no_milestones : Milestones
no_milestones = record {
  payment_cleared_at = none;
  confirmed_at = none;
  accepted_at = none;
  preparing_at = none;
  ready_at = none;
  picked_up_at = none;
}

pub record Order : Type 0 where
  pub user_id : ℕ
  pub restaurant_id : ℕ
  pub brand_id : Option ℕ
  pub restaurant_name_snapshot : ℕ
  pub status : OrderStatus
  pub request_hash : Option ℕ
  pub pricing_snapshot : ℕ
  pub delivery_address_snapshot : ℕ
  pub rider_id : Option ℕ
  pub placed_at : ℕ
  pub updated_at : ℕ
  pub milestones : Milestones

-- `order_items`, in the order of `line_no`.
pub record OrderItem : Type 0 where
  pub menu_item_id : ℕ
  pub name_snapshot : ℕ
  pub unit_price_cents : ℕ
  pub qty : ℕ
  pub options_snapshot : ℕ
  pub line_total_cents : ℕ

pub record Cancellation : Type 0 where
  pub reason : CancelReason
  pub cancelled_at : ℕ

-- The payload of `_full_state`.
pub record FullState : Type 0 where
  pub order_id : ℕ
  pub user_id : ℕ
  pub restaurant_id : ℕ
  pub brand_id : Option ℕ
  pub restaurant_name : ℕ
  pub status : OrderStatus
  pub items : List OrderItem
  pub totals : ℕ
  pub delivery_address : ℕ
  pub cancel_reason : Option CancelReason
  pub rider_id : Option ℕ
  pub milestones : Milestones
  pub placed_at : ℕ
  pub occurred_at : ℕ

-- OrderPlaced has a payload of its own, made from the placement.
pub data Event : Type 0 where
  placed_event : ℕ → Order → List OrderItem → Event
  moved_event : EventType → FullState → Event

-- `published` holds what `tracking.publish_status` was handed.
pub record World : Type 0 where
  pub orders : Table ℕ Order
  pub order_items : Table ℕ (List OrderItem)
  pub cancellations : Table ℕ Cancellation
  pub outbox : List Event
  pub published : List (ℕ × OrderStatus)

-- The arguments of `create_order`.
pub record PlacementInput : Type 0 where
  pub order_id : ℕ
  pub user_id : ℕ
  pub restaurant_id : ℕ
  pub brand_id : Option ℕ
  pub restaurant_name : ℕ
  pub request_hash : ℕ
  pub pricing_snapshot : ℕ
  pub address_snapshot : ℕ
  pub lines : List OrderItem
  pub placed_at : ℕ
