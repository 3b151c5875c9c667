-- ===== src/Dispatch/Writes.antt =====
-- The conditional writes of services/dispatch/dispatch/adapters/rider_store.py as data: each is
-- atomic, so that a list of them is an interleaving of any calls, by any workers.
use smart_food_ops.Prelude.{ℕ, Bool, true, false, none, List, [], ◌∷◌}
use smart_food_ops.Dispatch.Rows.{offering, assigned, cancelled, OfferInput}
use smart_food_ops.Dispatch.Store
use smart_food_ops.Dispatch.Store.{Riders, Deliveries, transition}

pub record Tables : Type 0 where
  pub riders : Riders
  pub deliveries : Deliveries

pub data Write : Type 0 where
  presence : Bool → ℕ → Write
  reserves : ℕ → ℕ → ℕ → ℕ → Write
  accepts : ℕ → ℕ → ℕ → Write
  releases : ℕ → ℕ → Write
  finishes : ℕ → ℕ → Write
  offers : ℕ → ℕ → ℕ → ℕ → OfferInput → Write
  assigns : ℕ → ℕ → ℕ → Write
  picks_up : ℕ → ℕ → ℕ → Write
  delivers : ℕ → ℕ → ℕ → Write
  unassigns : ℕ → ℕ → ℕ → Write
  cancels_offering : ℕ → ℕ → Write
  cancels_assigned : ℕ → ℕ → Write

abbrev pub riders_after : ℕ → Write → Riders → Bool × Riders
riders_after cap (presence online rider_id) t = (true, Store.set_presence online rider_id t)
riders_after cap (reserves now rider_id offer_id order_id) t =
    Store.reserve now rider_id offer_id order_id cap t
riders_after cap (accepts rider_id offer_id order_id) t = Store.accept rider_id offer_id order_id t
riders_after cap (releases rider_id offer_id) t = Store.release_offer rider_id offer_id t
riders_after cap (finishes rider_id order_id) t = Store.finish_delivery rider_id order_id t
riders_after cap _ t = (false, t)

abbrev pub deliveries_after : Write → Deliveries → Bool × Deliveries
deliveries_after (offers now order_id rider_id offer_id input) t =
    Store.put_offering now order_id rider_id offer_id input t
deliveries_after (assigns now order_id offer_id) t = Store.assign now order_id offer_id t
deliveries_after (picks_up now order_id rider_id) t = Store.mark_picked_up now order_id rider_id t
deliveries_after (delivers now order_id rider_id) t = Store.mark_delivered now order_id rider_id t
deliveries_after (unassigns now order_id rider_id) t = Store.unassign now order_id rider_id t
deliveries_after (cancels_offering now order_id) t =
    transition now order_id offering cancelled none none t
deliveries_after (cancels_assigned now order_id) t =
    transition now order_id assigned cancelled none none t
deliveries_after _ t = (false, t)

abbrev pub write : ℕ → Write → Tables → Tables
write cap op t = record {
  riders = (riders_after cap op t.riders).1;
  deliveries = (deliveries_after op t.deliveries).1;
}

unfoldable pub run : ℕ → List Write → Tables → Tables
run cap [] t = t
run cap (op ∷ ops) t = run cap ops (write cap op t)

abbrev pub no_tables : Tables
no_tables = record { riders = []; deliveries = [] }
