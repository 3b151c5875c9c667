-- ===== src/Dispatch/Calls.antt =====
-- The calls of services/dispatch/dispatch/domain/service.py as runs of the conditional writes that
-- they issue.
use smart_food_ops.Prelude.{
  ℕ, ◌≡◌, refl, true, false, ◌&&◌, not, Option, none, some, List, [], ◌∷◌, map, take, arith, nat_eq,
  if◌then◌else◌, Bool-cases, inl, inr,
}
use smart_food_ops.Table.{lookup}
use smart_food_ops.Dispatch.Rows.{OfferInput, Delivery, World, offering, cancelled}
use smart_food_ops.Dispatch.Store
use smart_food_ops.Dispatch.Store.{transition}
use smart_food_ops.Dispatch.Service.{
  Env, Candidate, go_online, go_offline, find_and_offer, offer_first, expire_offer,
  unassign_stalled, cancel, candidate_of, radius_km_for,
}
use smart_food_ops.Dispatch.Taps.{
  accept_offer, is_replay, is_delivered, tap_picked_up, tap_delivered,
}
use smart_food_ops.Dispatch.Writes.{
  Write, presence, reserves, accepts, releases, finishes, offers, assigns, picks_up, delivers,
  unassigns, cancels_offering, cancels_assigned, Tables, run,
}

pub data Call : Type 0 where
  goes_online : ℕ → ℕ × ℕ → Call
  goes_offline : ℕ → Call
  finds_and_offers :
      (ℕ → List (ℕ × ℕ)) → (List Candidate → List Candidate) → (ℕ → ℕ) → ℕ → OfferInput → Call
  expires_offer : ℕ → ℕ → ℕ → Call
  unassigns_stalled : ℕ → ℕ → Call
  cancels : ℕ → Call
  accepts_offer : ℕ → ℕ → ℕ → Call
  taps_picked_up : ℕ → ℕ → Call
  taps_delivered : ℕ → ℕ → Call

abbrev pub serve : Env → Call → World → World
serve env (goes_online rider_id position) w = go_online env rider_id position w
serve env (goes_offline rider_id) w = go_offline env rider_id w
serve env (finds_and_offers search rank offer_id_of order_id input) w =
    (find_and_offer env search rank offer_id_of order_id input w).1
serve env (expires_offer order_id offer_id rider_id) w =
    (expire_offer env order_id offer_id rider_id w).1
serve env (unassigns_stalled order_id rider_id) w = (unassign_stalled env order_id rider_id w).1
serve env (cancels order_id) w = (cancel env order_id w).1
serve env (accepts_offer rider_id offer_id order_id) w =
    (accept_offer env rider_id offer_id order_id w).1
serve env (taps_picked_up rider_id order_id) w = (tap_picked_up env rider_id order_id w).1
serve env (taps_delivered rider_id order_id) w = (tap_delivered env rider_id order_id w).1

abbrev pub tables_of : World → Tables
tables_of w = record { riders = w.riders; deliveries = w.deliveries }

-- The world after is the tables after those writes.
abbrev pub Runs : ℕ → World → World → Type 0
Runs cap w w' = (ops : List Write) × (tables_of w' ≡ run cap ops (tables_of w))

abbrev freeing : ℕ → Option Delivery → List Write
freeing order_id none = []
freeing order_id (some row) =
    releases row.rider_id row.offer_id ∷ finishes row.rider_id order_id ∷ []

module _ (env : Env) where
  go_online-Runs :
      (rider_id : ℕ) (position : ℕ × ℕ) (w : World)
      → Runs env.cap w (go_online env rider_id position w)
  unfolding go_online run
  go_online-Runs rider_id position w = (presence true rider_id ∷ [], ground arith)

  go_offline-Runs : (rider_id : ℕ) (w : World) → Runs env.cap w (go_offline env rider_id w)
  unfolding go_offline run
  go_offline-Runs rider_id w = (presence false rider_id ∷ [], ground arith)

  expire_offer-Runs :
      (order_id offer_id rider_id : ℕ) (w : World)
      → Runs env.cap w (expire_offer env order_id offer_id rider_id w).1
  unfolding expire_offer run
  expire_offer-Runs order_id offer_id rider_id w = (releases rider_id offer_id ∷ [], ground arith)

  tap_picked_up-Runs :
      (rider_id order_id : ℕ) (w : World) → Runs env.cap w (tap_picked_up env rider_id order_id w).1
  unfolding tap_picked_up run
  tap_picked_up-Runs rider_id order_id w = (picks_up env.now order_id rider_id ∷ [], ground arith)

  tap_delivered-Runs :
      (rider_id order_id : ℕ) (w : World) → Runs env.cap w (tap_delivered env rider_id order_id w).1
  unfolding tap_delivered run
  tap_delivered-Runs rider_id order_id w =
      let moved = (Store.mark_delivered env.now order_id rider_id w.deliveries).0 in
      let w' = record w {
        deliveries = (Store.mark_delivered env.now order_id rider_id w.deliveries).1;
      } in
      (
        delivers env.now order_id rider_id
            ∷ (if not moved && not (is_replay order_id rider_id is_delivered w')
                then []
                else finishes rider_id order_id ∷ []),
        ground arith,
      )

  accept_offer-Runs :
      (rider_id offer_id order_id : ℕ) (w : World)
      → Runs env.cap w (accept_offer env rider_id offer_id order_id w).1
  unfolding accept_offer run
  accept_offer-Runs rider_id offer_id order_id w = (
    accepts rider_id offer_id order_id
        ∷ (if (Store.accept rider_id offer_id order_id w.riders).0
            then assigns env.now order_id offer_id ∷ []
            else []),
    ground arith,
  )

  unassign_stalled-Runs :
      (order_id rider_id : ℕ) (w : World)
      → Runs env.cap w (unassign_stalled env order_id rider_id w).1
  unfolding unassign_stalled run
  unassign_stalled-Runs order_id rider_id w = (
    unassigns env.now order_id rider_id
        ∷ (if (Store.unassign env.now order_id rider_id w.deliveries).0
            then finishes rider_id order_id ∷ []
            else []),
    ground arith,
  )

  cancel-Runs : (order_id : ℕ) (w : World) → Runs env.cap w (cancel env order_id w).1
  unfolding cancel run
  cancel-Runs order_id w = (
    cancels_offering env.now order_id
        ∷ (if (transition env.now order_id offering cancelled none none w.deliveries).0
            then freeing order_id (lookup order_id w.deliveries)
            else cancels_assigned env.now order_id
              ∷ (if (Store.cancel env.now order_id w.deliveries).0
                  then freeing order_id (lookup order_id w.deliveries)
                  else [])),
    ground arith,
  )

  offer_first-Runs :
      (offer_id_of : ℕ → ℕ) (order_id : ℕ) (input : OfferInput) (ranked : List Candidate)
      (w : World)
      → Runs env.cap w (offer_first env offer_id_of order_id input ranked w).1
  unfolding offer_first run
  offer_first-Runs offer_id_of order_id input [] w = ([], refl)
  offer_first-Runs offer_id_of order_id input (candidate ∷ rest) w =
      let rider_id = candidate.candidate_id in
      let (reserved, riders) =
        Store.reserve env.now rider_id (offer_id_of rider_id) order_id env.cap w.riders in
      let (ops, eq) =
        offer_first-Runs offer_id_of order_id input rest (record w { riders = riders }) in
      (
        reserves env.now rider_id (offer_id_of rider_id) order_id
            ∷ (if reserved
                then offers env.now order_id rider_id (offer_id_of rider_id) input ∷ []
                else ops),
        elim (Bool-cases reserved) [
          | inl won ↦ ground (arith, won)
          | inr lost ↦ ground (arith, lost, eq)
        ],
      )

  pub call-Runs : (call : Call) (w : World) → Runs env.cap w (serve env call w)
  unfolding find_and_offer
  call-Runs (goes_online rider_id position) w = go_online-Runs rider_id position w
  call-Runs (goes_offline rider_id) w = go_offline-Runs rider_id w
  call-Runs (finds_and_offers search rank offer_id_of order_id input) w =
      offer_first-Runs offer_id_of order_id input
        (rank (map (candidate_of w) (take 8 (search (radius_km_for env input.attempt))))) w
  call-Runs (expires_offer order_id offer_id rider_id) w =
      expire_offer-Runs order_id offer_id rider_id w
  call-Runs (unassigns_stalled order_id rider_id) w = unassign_stalled-Runs order_id rider_id w
  call-Runs (cancels order_id) w = cancel-Runs order_id w
  call-Runs (accepts_offer rider_id offer_id order_id) w =
      accept_offer-Runs rider_id offer_id order_id w
  call-Runs (taps_picked_up rider_id order_id) w = tap_picked_up-Runs rider_id order_id w
  call-Runs (taps_delivered rider_id order_id) w = tap_delivered-Runs rider_id order_id w
