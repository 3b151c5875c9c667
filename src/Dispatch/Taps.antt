-- ===== src/Dispatch/Taps.antt =====
-- services/dispatch/dispatch/domain/service.py: the rider's taps and the reads.
use smart_food_ops.Prelude.{
  ℕ, Bool, true, false, ◌&&◌, ◌||◌, not, Option, none, some, List, [], ◌∷◌, nat_beq, nat_eq,
  if◌then◌else◌,
}
use smart_food_ops.Table.{lookup}
use smart_food_ops.Dispatch.Rows.{
  DeliveryState, offering, assigned, picked_up, delivered, state_beq, OfferLock, Delivery,
  accepted_event, picked_up_event, delivered_event, rider_assigned, delivery_completed, World,
}
use smart_food_ops.Dispatch.Store
use smart_food_ops.Dispatch.Service.{Env, emit, send_courier, is_taken}

-- `unavailable` is the `OrderUnavailable` that the route answers with 503.
pub data AcceptAnswer : Type 0 where
  taken : AcceptAnswer
  expired : AcceptAnswer
  accept_unavailable : AcceptAnswer

-- The row is this rider's, under this offer, and taken.
abbrev pub is_accepted : ℕ → ℕ → Option Delivery → Bool
is_accepted rider_id offer_id none = false
is_accepted rider_id offer_id (some row) =
    nat_beq row.rider_id rider_id && nat_beq row.offer_id offer_id && is_taken row.state

abbrev pub accept_sent : Bool × World → AcceptAnswer × World
accept_sent (sent, w) = (if sent then taken else accept_unavailable, w)

unfoldable pub accept_offer : Env → ℕ → ℕ → ℕ → World → AcceptAnswer × World
accept_offer env rider_id offer_id order_id w =
    let (converted, riders) = Store.accept rider_id offer_id order_id w.riders in
    let w' = record w { riders = riders } in
    if converted
    then accept_sent (
        send_courier env order_id accepted_event rider_id (
          emit env (rider_assigned order_id rider_id offer_id)
            (record w' { deliveries = (Store.assign env.now order_id offer_id w'.deliveries).1 })))
    else if is_accepted rider_id offer_id (lookup order_id w'.deliveries)
    then accept_sent (send_courier env order_id accepted_event rider_id w')
    else (expired, w')

pub data TapAnswer : Type 0 where
  done : TapAnswer
  conflict : TapAnswer
  tap_unavailable : TapAnswer

abbrev pub tap_sent : Bool × World → TapAnswer × World
tap_sent (sent, w) = (if sent then done else tap_unavailable, w)

-- `_is_replay`
abbrev pub is_replay : ℕ → ℕ → (DeliveryState → Bool) → World → Bool
is_replay order_id rider_id states w = elim (lookup order_id w.deliveries) [
  | none ↦ false
  | some row ↦ nat_beq row.rider_id rider_id && states row.state
]

abbrev pub is_carried : DeliveryState → Bool
is_carried picked_up = true
is_carried delivered = true
is_carried _ = false

abbrev pub is_delivered : DeliveryState → Bool
is_delivered state = state_beq state delivered

-- `picked_up` of the service.
unfoldable pub tap_picked_up : Env → ℕ → ℕ → World → TapAnswer × World
tap_picked_up env rider_id order_id w =
    let (moved, deliveries) = Store.mark_picked_up env.now order_id rider_id w.deliveries in
    let w' = record w { deliveries = deliveries } in
    if not moved && not (is_replay order_id rider_id is_carried w')
    then (conflict, w')
    else tap_sent (send_courier env order_id picked_up_event rider_id w')

-- `delivered` of the service.
unfoldable pub tap_delivered : Env → ℕ → ℕ → World → TapAnswer × World
tap_delivered env rider_id order_id w =
    let (moved, deliveries) = Store.mark_delivered env.now order_id rider_id w.deliveries in
    let w' = record w { deliveries = deliveries } in
    if not moved && not (is_replay order_id rider_id is_delivered w')
    then (conflict, w')
    else tap_sent (
        send_courier env order_id delivered_event rider_id (
          emit env (delivery_completed order_id rider_id)
            (record w' { riders = (Store.finish_delivery rider_id order_id w'.riders).1 })))

-- `_offer_view`, and with the state `_job_view`.
pub record OfferView : Type 0 where
  pub view_offer_id : ℕ
  pub view_order_id : ℕ
  pub view_restaurant_name : ℕ
  pub view_pickup : ℕ × ℕ
  pub view_dropoff : ℕ × ℕ

abbrev pub offer_view : ℕ → Delivery → OfferView
offer_view order_id row = record {
  view_offer_id = row.offer_id;
  view_order_id = order_id;
  view_restaurant_name = row.input.restaurant_name;
  view_pickup = row.input.pickup;
  view_dropoff = row.input.dropoff;
}

-- The live offer, if the lock holds one.
abbrev pub live_offer : World → Option OfferLock → Option OfferView
live_offer w none = none
live_offer w (some lock) = elim (lookup lock.order_id w.deliveries) [
  | none ↦ none
  | some row ↦
      if state_beq row.state offering && nat_beq row.offer_id lock.offer_id
      then some (offer_view lock.order_id row)
      else none
]

-- The first active order whose row is ASSIGNED or PICKED_UP.
unfoldable pub active_job : World → List ℕ → Option (OfferView × DeliveryState)
active_job w [] = none
active_job w (order_id ∷ rest) =
    let later = active_job w rest in
    elim (lookup order_id w.deliveries) [
      | none ↦ later
      | some row ↦
          if state_beq row.state assigned || state_beq row.state picked_up
          then some (offer_view order_id row, row.state)
          else later
    ]

-- Whether the rider is online, the live offer and the active job.
unfoldable pub me : ℕ → World → Bool × Option OfferView × Option (OfferView × DeliveryState)
me rider_id w = elim (lookup rider_id w.riders) [
  | none ↦ (false, none, none)
  | some row ↦ (row.online, live_offer w row.offer_lock, active_job w row.active_deliveries)
]

-- The state, the courier's last fix, the pickup and the dropoff, for the order's customer only.
unfoldable pub courier_position :
    (latest : ℕ → Option (ℕ × ℕ))
    → ℕ
    → ℕ
    → World
    → Option (DeliveryState × Option (ℕ × ℕ) × (ℕ × ℕ) × (ℕ × ℕ))
courier_position latest order_id caller_sub w = elim (lookup order_id w.deliveries) [
  | none ↦ none
  | some row ↦
      if nat_beq row.input.user_id caller_sub
      then some (row.state, latest row.rider_id, row.input.pickup, row.input.dropoff)
      else none
]

unfoldable pub delivery_state : ℕ → World → Option (DeliveryState × Option ℕ × Option ℕ)
delivery_state order_id w = elim (lookup order_id w.deliveries) [
  | none ↦ none
  | some row ↦ some (row.state, row.stamps.assigned_at, row.stamps.picked_up_at)
]
