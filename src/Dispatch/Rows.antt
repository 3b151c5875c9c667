-- ===== src/Dispatch/Rows.antt =====
-- services/dispatch/dispatch/adapters/rider_store.py: the two DynamoDB tables. An attribute that is
-- absent is none, 0 or the empty list, as the expressions read it; coordinates are numbers.
use smart_food_ops.Prelude.{ℕ, Bool, true, false, Option, List}
use smart_food_ops.Table.{Table}

pub data DeliveryState : Type 0 where
  offering assigned picked_up delivered cancelled : DeliveryState

abbrev pub state_beq : DeliveryState → DeliveryState → Bool
state_beq offering offering = true
state_beq assigned assigned = true
state_beq picked_up picked_up = true
state_beq delivered delivered = true
state_beq cancelled cancelled = true
state_beq _ _ = false

pub record OfferLock : Type 0 where
  pub offer_id : ℕ
  pub order_id : ℕ
  pub locked_at : ℕ

-- `active_deliveries` is a set: `ADD` and `DELETE` keep each order in it at most once, and it is read back
-- sorted.
pub record Rider : Type 0 where
  pub online : Bool
  pub offer_lock : Option OfferLock
  pub active_deliveries : List ℕ
  pub offers_made : ℕ
  pub offers_accepted : ℕ

pub record Stamps : Type 0 where
  pub offered_at : Option ℕ
  pub assigned_at : Option ℕ
  pub picked_up_at : Option ℕ
  pub delivered_at : Option ℕ
  pub unassigned_at : Option ℕ
  pub cancelled_at : Option ℕ

-- What an offer is made of.
pub record OfferInput : Type 0 where
  pub user_id : ℕ
  pub restaurant_name : ℕ
  pub pickup : ℕ × ℕ
  pub dropoff : ℕ × ℕ
  pub attempt : ℕ

pub record Delivery : Type 0 where
  pub state : DeliveryState
  pub rider_id : ℕ
  pub offer_id : ℕ
  pub input : OfferInput
  pub stamps : Stamps

-- The push frames to a rider.
pub data Frame : Type 0 where
  offer_frame : ℕ → ℕ → OfferInput → ℕ → Frame
  offer_revoked : ℕ → Frame
  assignment_revoked : ℕ → Frame

pub data CourierEvent : Type 0 where
  accepted_event picked_up_event delivered_event : CourierEvent

pub data DomainEvent : Type 0 where
  rider_online rider_offline : ℕ → DomainEvent
  rider_assigned : ℕ → ℕ → ℕ → DomainEvent
  delivery_completed : ℕ → ℕ → DomainEvent

-- The tables, the pins of the geo index, and what was pushed, relayed to the order service and
-- emitted, in order.
pub record World : Type 0 where
  pub pins : Table ℕ (ℕ × ℕ)
  pub riders : Table ℕ Rider
  pub deliveries : Table ℕ Delivery
  pub pushed : List (ℕ × Frame)
  pub relayed : List (ℕ × CourierEvent × ℕ)
  pub emitted : List DomainEvent
