-- ===== src/Dispatch/Tests.antt =====
-- Rider 5 and order 7, through the cascade.
use smart_food_ops.Prelude.{ℕ, ◌+◌, ◌≡◌, ◌≤◌, refl, true, false, none, some, List, [], ◌∷◌, nat_eq}
use smart_food_ops.Table.{lookup, insert}
use smart_food_ops.Dispatch.Rows.{
  assigned, picked_up, cancelled, Rider, OfferInput, Delivery, World,
}
use smart_food_ops.Dispatch.Store.{
  locked_by, is_in, insert_sorted, stamp, new_rider, offering_row, no_stamps,
}
use smart_food_ops.Dispatch.Service.{
  Env, Candidate, find_and_offer, offer_first, offered, expire_offer, revoked, already_assigned,
  cancel, freed, kept, go_online,
}
use smart_food_ops.Dispatch.Taps.{accept_offer, taken, expired}
use smart_food_ops.Dispatch.Writes.{
  Write, presence, reserves, accepts, releases, offers, assigns, picks_up, delivers,
  cancels_offering, run, no_tables,
}
use smart_food_ops.Dispatch.Capacity.{load_of}
use smart_food_ops.Dispatch.Follows.{Follows}
use smart_food_ops.Dispatch.Life.{delivery-Follows}
use smart_food_ops.Dispatch.Offers.{won, takes, makes, locks, offer_taken_once}
use smart_food_ops.Dispatch.Calls.{tables_of, Call, goes_online, finds_and_offers}
use smart_food_ops.Dispatch.History.{rider_load_bound, serve_all}
use smart_food_ops.Dispatch.Accept.{IsOffered, IsAssigned, accept_settles, accept_after_expire}
use smart_food_ops.Dispatch.Cancel.{cancel_frees}

abbrev env : Env
env = record {
  now = 100;
  cap = 1;
  bus_up = true;
  producer_up = true;
  order_up = true;
  radius = 3;
  widened = 6;
  widen_after = 3;
  first_timeout = 15;
  next_timeout = 12;
}

abbrev input : OfferInput
input = record { user_id = 3; restaurant_name = 4; pickup = (1, 1); dropoff = (2, 2); attempt = 1 }

abbrev empty_world : World
empty_world = record {
  pins = [];
  riders = [];
  deliveries = [];
  pushed = [];
  relayed = [];
  emitted = [];
}

abbrev nearby : ℕ → List (ℕ × ℕ)
nearby radius = (5, 250) ∷ []

abbrev as_found : List Candidate → List Candidate
as_found candidates = candidates

abbrev offer_of : ℕ → ℕ
offer_of rider_id = 90

abbrev calls : List (Env × Call)
calls = (env, goes_online 5 (1, 1)) ∷ (env, finds_and_offers nearby as_found offer_of 7 input) ∷ []

abbrev locked_rider : Rider
locked_rider = record {
  online = true;
  offer_lock = some (record { offer_id = 90; order_id = 7; locked_at = 100 });
  active_deliveries = [];
  offers_made = 1;
  offers_accepted = 0;
}

abbrev offered_delivery : Delivery
offered_delivery = offering_row 100 5 90 input no_stamps

abbrev offered_world : World
offered_world = record empty_world {
  riders = (5, locked_rider) ∷ [];
  deliveries = (7, offered_delivery) ∷ [];
}

cascade_offers : tables_of (serve_all 1 calls empty_world) ≡ tables_of offered_world
unfolding serve_all go_online find_and_offer offer_first lookup insert
cascade_offers = refl

is_offered : IsOffered 5 90 7 (tables_of offered_world)
unfolding lookup
is_offered = record {
  rider = locked_rider;
  delivery = offered_delivery;
  rider_found = refl;
  locked = refl;
  delivery_found = refl;
  in_offer = refl;
  of_offer = refl;
  of_rider = refl;
}

-- The body names order 8, which no row has, and the lock holds an offer of order 7: the answer is
-- `assigned`, the rider is taken by order 8, and order 7 stays in the offer.
accept_of_another_order :
    let (answer, w') = accept_offer env 5 90 8 offered_world in
    (answer ≡ taken)
    × (tables_of w' ≡ record {
      riders =
          (
            5,
            record locked_rider {
              offer_lock = none;
              active_deliveries = 8 ∷ [];
              offers_accepted = 1;
            },
          )
          ∷ [];
      deliveries = (7, offered_delivery) ∷ [];
    })
unfolding accept_offer lookup insert is_in insert_sorted
accept_of_another_order = (refl, refl)

abbrev cancelled_world : World
cancelled_world = record empty_world {
  riders = (5, new_rider true) ∷ [];
  deliveries = (7, record offered_delivery { state = cancelled }) ∷ [];
}

-- The order was cancelled: the answer is `offered`, the row stays cancelled, and the rider stays
-- locked: the cancel that follows answers `kept` and frees nobody.
offer_of_cancelled_order :
    let (answer, w') = find_and_offer env nearby as_found offer_of 7 input cancelled_world in
    let (answer', w'') = cancel env 7 w' in
    (answer ≡ offered 90 5 15)
    × (answer' ≡ kept (some cancelled))
    × (lookup 5 w''.riders ≡ some locked_rider)
unfolding find_and_offer offer_first cancel lookup insert
offer_of_cancelled_order = (refl, refl, refl)

abbrev cascade : List Write
cascade =
    presence true 5
    ∷ reserves 100 5 90 7
    ∷ offers 100 7 5 90 input
    ∷ accepts 5 90 7
    ∷ releases 5 90
    ∷ reserves 101 5 91 8
    ∷ assigns 101 7 90
    ∷ picks_up 102 7 5
    ∷ []

abbrev carried_delivery : Delivery
carried_delivery = record offered_delivery {
  state = picked_up;
  stamps = stamp picked_up 102 (stamp assigned 101 offered_delivery.stamps);
}

cascade_row : lookup 7 (run 1 cascade no_tables).deliveries ≡ some carried_delivery
unfolding run lookup insert
cascade_row = refl

abbrev busy_rider : Rider
busy_rider = record locked_rider {
  offer_lock = none;
  active_deliveries = 7 ∷ [];
  offers_accepted = 1;
}

busy_found : lookup 5 (run 1 cascade no_tables).riders ≡ some busy_rider
unfolding run lookup insert is_in insert_sorted
busy_found = refl

offered_found : lookup 7 offered_world.deliveries ≡ some offered_delivery
unfolding lookup
offered_found = refl

locked_found : lookup 5 offered_world.riders ≡ some locked_rider
unfolding lookup
locked_found = refl

rider_load_bound_example : load_of busy_rider ≤ 1
rider_load_bound_example = rider_load_bound 1 cascade 5 busy_rider busy_found

offer_taken_once_example :
    won (takes 90) 1 cascade no_tables + locks 90 (run 1 cascade no_tables).riders
    ≡ won (makes 90) 1 cascade no_tables + 0
offer_taken_once_example = offer_taken_once 1 90 cascade no_tables

delivery-Follows_example :
    (d' : Delivery) × (lookup 7
        (run 1
          (cancels_offering 103 7 ∷ delivers 103 7 5 ∷ [])
          (run 1 cascade no_tables)).deliveries
      ≡ some d')
    × Follows carried_delivery d'
delivery-Follows_example =
    delivery-Follows 1 (cancels_offering 103 7 ∷ delivers 103 7 5 ∷ []) (run 1 cascade no_tables) 7
      carried_delivery cascade_row

accept_settles_example :
    let (answer, w') = accept_offer env 5 90 7 offered_world in
    let (again, w'') = accept_offer env 5 90 7 w' in
    let (late, w''') = expire_offer env 7 90 5 w' in
    IsAssigned 5 90 7 (tables_of w')
    × (answer ≡ taken)
    × (tables_of w'' ≡ tables_of w')
    × (again ≡ taken)
    × (tables_of w''' ≡ tables_of w')
    × (late ≡ already_assigned 5)
accept_settles_example = accept_settles 5 90 7 env env offered_world is_offered

accept_after_expire_example :
    let (answer, w') = expire_offer env 7 90 5 offered_world in
    (answer ≡ revoked) × (accept_offer env 5 90 7 w' ≡ (expired, w'))
accept_after_expire_example = accept_after_expire 5 90 7 env env offered_world is_offered

cancel_frees_example :
    let (answer, w') = cancel env 7 offered_world in
    (answer ≡ freed)
    × (lookup 7 w'.deliveries
        ≡ some (record offered_delivery {
          state = cancelled;
          stamps = stamp cancelled 100 offered_delivery.stamps;
        }))
    × ((row' : Rider) × (lookup 5 w'.riders ≡ some row')
        × (locked_by 90 row' ≡ false)
        × (is_in 7 row'.active_deliveries ≡ false))
cancel_frees_example =
    cancel_frees env 7 offered_world offered_delivery locked_rider offered_found refl locked_found
