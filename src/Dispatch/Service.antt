-- ===== src/Dispatch/Service.antt =====
-- services/dispatch/dispatch/domain/service.py: the methods of `DispatchService`. The search of the
-- geo index, the float score that ranks the candidates and the offer's uuid are arguments.
use smart_food_ops.Prelude.{
  ℕ, Bool, true, false, Option, none, some, List, [], ◌∷◌, ◌++◌, map, take, leb, nat_beq, nat_eq,
  if◌then◌else◌,
}
use smart_food_ops.Table.{lookup, insert, erase}
use smart_food_ops.Dispatch.Rows.{
  DeliveryState, assigned, picked_up, delivered, OfferInput, Delivery, Frame, offer_frame,
  offer_revoked, assignment_revoked, CourierEvent, DomainEvent, rider_online, rider_offline, World,
}
use smart_food_ops.Dispatch.Store

-- The settings, the clock, and which of the peers answer.
pub record Env : Type 0 where
  pub now : ℕ
  pub cap : ℕ
  pub bus_up : Bool
  pub producer_up : Bool
  pub order_up : Bool
  pub radius : ℕ
  pub widened : ℕ
  pub widen_after : ℕ
  pub first_timeout : ℕ
  pub next_timeout : ℕ

-- `_push`: a dead bus drops the frame.
abbrev pub push : Env → ℕ → Frame → World → World
push env rider_id frame w =
    if env.bus_up then record w { pushed = w.pushed ++ (rider_id, frame) ∷ [] } else w

-- `_emit`: a dead producer drops the event.
abbrev pub emit : Env → DomainEvent → World → World
emit env event w = if env.producer_up then record w { emitted = w.emitted ++ event ∷ [] } else w

-- `courier_events.send`: false is `OrderUnavailable`.
abbrev pub send_courier : Env → ℕ → CourierEvent → ℕ → World → Bool × World
send_courier env order_id event rider_id w =
    if env.order_up
    then (true, record w { relayed = w.relayed ++ (order_id, event, rider_id) ∷ [] })
    else (false, w)

unfoldable pub go_online : Env → ℕ → ℕ × ℕ → World → World
go_online env rider_id position w = emit env (rider_online rider_id) (record w {
  riders = Store.set_online rider_id w.riders;
  pins = insert rider_id position w.pins;
})

unfoldable pub go_offline : Env → ℕ → World → World
go_offline env rider_id w =
    emit env (rider_offline rider_id)
      (record w { riders = Store.set_offline rider_id w.riders; pins = erase rider_id w.pins })

pub data OfferAnswer : Type 0 where
  offered : ℕ → ℕ → ℕ → OfferAnswer
  no_candidates : OfferAnswer

-- `radius_km_for` of domain/scoring.py.
abbrev pub radius_km_for : Env → ℕ → ℕ
radius_km_for env attempt = if leb attempt env.widen_after then env.radius else env.widened

abbrev pub timeout_of : Env → ℕ → ℕ
timeout_of env attempt = if nat_beq attempt 1 then env.first_timeout else env.next_timeout

pub record Candidate : Type 0 where
  pub candidate_id : ℕ
  pub distance_m : ℕ
  pub offers_made : ℕ
  pub offers_accepted : ℕ

abbrev pub candidate_of : World → ℕ × ℕ → Candidate
candidate_of w (rider_id, distance_m) = elim (lookup rider_id w.riders) [
  | none ↦ record {
    candidate_id = rider_id;
    distance_m = distance_m;
    offers_made = 0;
    offers_accepted = 0;
  }
  | some row ↦ record {
    candidate_id = rider_id;
    distance_m = distance_m;
    offers_made = row.offers_made;
    offers_accepted = row.offers_accepted;
  }
]

-- The row and the frame of a reserved candidate. What `put_offering` answers is not read.
abbrev pub made_offer : Env → (ℕ → ℕ) → ℕ → OfferInput → ℕ → World → World
made_offer env offer_id_of order_id input rider_id w =
    push env rider_id
      (offer_frame (offer_id_of rider_id) order_id input (timeout_of env input.attempt))
      (record w {
        deliveries =
            (Store.put_offering env.now order_id rider_id (offer_id_of rider_id) input
              w.deliveries).1;
      })

-- The loop over the ranked candidates.
unfoldable pub offer_first :
    Env → (ℕ → ℕ) → ℕ → OfferInput → List Candidate → World → OfferAnswer × World
offer_first env offer_id_of order_id input [] w = (no_candidates, w)
offer_first env offer_id_of order_id input (candidate ∷ rest) w =
    let rider_id = candidate.candidate_id in
    let (reserved, riders) =
      Store.reserve env.now rider_id (offer_id_of rider_id) order_id env.cap w.riders in
    let w' = record w { riders = riders } in
    let later = offer_first env offer_id_of order_id input rest w' in
    if reserved
    then (
      offered (offer_id_of rider_id) rider_id (timeout_of env input.attempt),
      made_offer env offer_id_of order_id input rider_id w',
    )
    else later

-- The stats of at most eight riders are fetched.
unfoldable pub find_and_offer :
    Env
    → (search : ℕ → List (ℕ × ℕ)) → (rank : List Candidate → List Candidate) → (offer_id_of : ℕ → ℕ)
    → ℕ
    → OfferInput
    → World
    → OfferAnswer × World
find_and_offer env search rank offer_id_of order_id input w =
    offer_first env offer_id_of order_id input
      (rank (map (candidate_of w) (take 8 (search (radius_km_for env input.attempt))))) w

pub data ExpireAnswer : Type 0 where
  revoked : ExpireAnswer
  already_assigned : ℕ → ExpireAnswer

-- ASSIGNED, PICKED_UP or DELIVERED.
abbrev pub is_taken : DeliveryState → Bool
is_taken assigned = true
is_taken picked_up = true
is_taken delivered = true
is_taken _ = false

abbrev pub expired_row : Option Delivery → ExpireAnswer
expired_row none = revoked
expired_row (some row) = if is_taken row.state then already_assigned row.rider_id else revoked

unfoldable pub expire_offer : Env → ℕ → ℕ → ℕ → World → ExpireAnswer × World
expire_offer env order_id offer_id rider_id w =
    let (released, riders) = Store.release_offer rider_id offer_id w.riders in
    let w' = record w { riders = riders } in
    if released
    then (revoked, push env rider_id (offer_revoked offer_id) w')
    else (expired_row (lookup order_id w'.deliveries), w')

pub data StallAnswer : Type 0 where
  stalled : StallAnswer
  already_picked_up : StallAnswer

unfoldable pub unassign_stalled : Env → ℕ → ℕ → World → StallAnswer × World
unassign_stalled env order_id rider_id w =
    let (reverted, deliveries) = Store.unassign env.now order_id rider_id w.deliveries in
    let w' = record w { deliveries = deliveries } in
    if reverted
    then (
      stalled,
      push env rider_id (assignment_revoked order_id)
          (record w' { riders = (Store.finish_delivery rider_id order_id w'.riders).1 }),
    )
    else (already_picked_up, w')

pub data CancelAnswer : Type 0 where
  kept : Option DeliveryState → CancelAnswer
  freed : CancelAnswer

abbrev pub state_of : Option Delivery → Option DeliveryState
state_of none = none
state_of (some row) = some row.state

-- What the row read first holds is freed.
abbrev pub free_row : Env → ℕ → Option Delivery → World → World
free_row env order_id none w = w
free_row env order_id (some row) w = push env row.rider_id (assignment_revoked order_id) (record w {
  riders =
      (Store.finish_delivery row.rider_id order_id
        (Store.release_offer row.rider_id row.offer_id w.riders).1).1;
})

unfoldable pub cancel : Env → ℕ → World → CancelAnswer × World
cancel env order_id w =
    let row = lookup order_id w.deliveries in
    let (cancelled, deliveries) = Store.cancel env.now order_id w.deliveries in
    let w' = record w { deliveries = deliveries } in
    if cancelled then (freed, free_row env order_id row w') else (kept (state_of row), w')
