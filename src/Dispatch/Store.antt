-- ===== src/Dispatch/Store.antt =====
-- services/dispatch/dispatch/adapters/rider_store.py: each method is one conditional write, and
-- answers whether its condition held.
use smart_food_ops.Prelude.{
  ℕ, ◌+◌, Bool, true, false, ◌&&◌, ◌||◌, not, Option, none, some, List, [], ◌∷◌, ltb, leb, nat_beq,
  nat_eq, length, if◌then◌else◌,
}
use smart_food_ops.Table.{Table, lookup, insert, update_where}
use smart_food_ops.Dispatch.Rows.{
  DeliveryState, offering, assigned, picked_up, delivered, cancelled, state_beq, Rider, Stamps,
  OfferInput, Delivery,
}

abbrev pub Riders : Type 0
Riders = Table ℕ Rider

abbrev pub Deliveries : Type 0
Deliveries = Table ℕ Delivery

abbrev pub new_rider : Bool → Rider
new_rider online = record {
  online = online;
  offer_lock = none;
  active_deliveries = [];
  offers_made = 0;
  offers_accepted = 0;
}

-- An update of a missing item creates it.
abbrev pub set_presence : Bool → ℕ → Riders → Riders
set_presence online rider_id riders = elim (lookup rider_id riders) [
  | none ↦ insert rider_id (new_rider online) riders
  | some row ↦ insert rider_id (record row { online = online }) riders
]

abbrev pub set_online : ℕ → Riders → Riders
set_online rider_id riders = set_presence true rider_id riders

abbrev pub set_offline : ℕ → Riders → Riders
set_offline rider_id riders = set_presence false rider_id riders

abbrev pub is_locked : Rider → Bool
is_locked row = elim row.offer_lock [ none ↦ false | some _ ↦ true ]

-- `offer_lock.offer_id = :oid`
abbrev pub locked_by : ℕ → Rider → Bool
locked_by offer_id row = elim row.offer_lock [
  | none ↦ false
  | some lock ↦ nat_beq lock.offer_id offer_id
]

abbrev pub is_reservable : ℕ → Rider → Bool
is_reservable cap row = not (is_locked row) && ltb (length row.active_deliveries) cap && row.online

abbrev pub reserved_row : ℕ → ℕ → ℕ → Rider → Rider
reserved_row now offer_id order_id row = record row {
  offer_lock = some (record { offer_id = offer_id; order_id = order_id; locked_at = now });
  offers_made = row.offers_made + 1;
}

abbrev pub reserve : ℕ → ℕ → ℕ → ℕ → ℕ → Riders → Bool × Riders
reserve now rider_id offer_id order_id cap riders =
    update_where rider_id (is_reservable cap) (reserved_row now offer_id order_id) riders

unfoldable pub is_in : ℕ → List ℕ → Bool
is_in n [] = false
is_in n (m ∷ rest) = nat_beq m n || is_in n rest

unfoldable pub insert_sorted : ℕ → List ℕ → List ℕ
insert_sorted n [] = n ∷ []
insert_sorted n (m ∷ rest) = if leb n m then n ∷ m ∷ rest else m ∷ insert_sorted n rest

-- `ADD` to a set, and `DELETE` from it. A set is read back sorted, so it is kept sorted.
abbrev pub add_to_set : ℕ → List ℕ → List ℕ
add_to_set n set = if is_in n set then set else insert_sorted n set

unfoldable pub delete_from_set : ℕ → List ℕ → List ℕ
delete_from_set n [] = []
delete_from_set n (m ∷ rest) =
    if nat_beq m n then delete_from_set n rest else m ∷ delete_from_set n rest

abbrev pub accepted_row : ℕ → Rider → Rider
accepted_row order_id row = record row {
  offer_lock = none;
  active_deliveries = add_to_set order_id row.active_deliveries;
  offers_accepted = row.offers_accepted + 1;
}

abbrev pub accept : ℕ → ℕ → ℕ → Riders → Bool × Riders
accept rider_id offer_id order_id riders =
    update_where rider_id (locked_by offer_id) (accepted_row order_id) riders

abbrev pub unlocked_row : Rider → Rider
unlocked_row row = record row { offer_lock = none }

abbrev pub release_offer : ℕ → ℕ → Riders → Bool × Riders
release_offer rider_id offer_id riders =
    update_where rider_id (locked_by offer_id) unlocked_row riders

abbrev pub finished_row : ℕ → Rider → Rider
finished_row order_id row = record row {
  active_deliveries = delete_from_set order_id row.active_deliveries;
}

abbrev pub finish_delivery : ℕ → ℕ → Riders → Bool × Riders
finish_delivery rider_id order_id riders =
    update_where rider_id (λ row. is_in order_id row.active_deliveries) (finished_row order_id)
      riders

abbrev pub no_stamps : Stamps
no_stamps = record {
  offered_at = none;
  assigned_at = none;
  picked_up_at = none;
  delivered_at = none;
  unassigned_at = none;
  cancelled_at = none;
}

abbrev pub offering_row : ℕ → ℕ → ℕ → OfferInput → Stamps → Delivery
offering_row now rider_id offer_id input stamps = record {
  state = offering;
  rider_id = rider_id;
  offer_id = offer_id;
  input = input;
  stamps = record stamps { offered_at = some now };
}

-- A missing row or a prior OFFERING may be overwritten; other attributes stay.
abbrev pub put_offering : ℕ → ℕ → ℕ → ℕ → OfferInput → Deliveries → Bool × Deliveries
put_offering now order_id rider_id offer_id input deliveries = elim (lookup order_id deliveries) [
  | none ↦ (true, insert order_id (offering_row now rider_id offer_id input no_stamps) deliveries)
  | some row ↦
      if state_beq row.state offering
      then (true, insert order_id (offering_row now rider_id offer_id input row.stamps) deliveries)
      else (false, deliveries)
]

abbrev pub guards : DeliveryState → Option ℕ → Option ℕ → Delivery → Bool
guards expected guard_offer guard_rider row =
    state_beq row.state expected
    && elim guard_offer [ none ↦ true | some offer_id ↦ nat_beq row.offer_id offer_id ]
    && elim guard_rider [ none ↦ true | some rider_id ↦ nat_beq row.rider_id rider_id ]

-- The stamp of each target; a revoke stamps `unassigned_at`.
abbrev pub stamp : DeliveryState → ℕ → Stamps → Stamps
stamp offering now s = record s { unassigned_at = some now }
stamp assigned now s = record s { assigned_at = some now }
stamp picked_up now s = record s { picked_up_at = some now }
stamp delivered now s = record s { delivered_at = some now }
stamp cancelled now s = record s { cancelled_at = some now }

-- `_transition`
abbrev pub transition :
    ℕ → ℕ → DeliveryState → DeliveryState → Option ℕ → Option ℕ → Deliveries → Bool × Deliveries
transition now order_id expected target guard_offer guard_rider deliveries =
    update_where order_id (guards expected guard_offer guard_rider)
      (λ row. record row { state = target; stamps = stamp target now row.stamps }) deliveries

abbrev pub assign : ℕ → ℕ → ℕ → Deliveries → Bool × Deliveries
assign now order_id offer_id deliveries =
    transition now order_id offering assigned (some offer_id) none deliveries

abbrev pub mark_picked_up : ℕ → ℕ → ℕ → Deliveries → Bool × Deliveries
mark_picked_up now order_id rider_id deliveries =
    transition now order_id assigned picked_up none (some rider_id) deliveries

abbrev pub mark_delivered : ℕ → ℕ → ℕ → Deliveries → Bool × Deliveries
mark_delivered now order_id rider_id deliveries =
    transition now order_id picked_up delivered none (some rider_id) deliveries

abbrev pub unassign : ℕ → ℕ → ℕ → Deliveries → Bool × Deliveries
unassign now order_id rider_id deliveries =
    transition now order_id assigned offering none (some rider_id) deliveries

abbrev pub cancel : ℕ → ℕ → Deliveries → Bool × Deliveries
cancel now order_id deliveries =
    let (was_offering, deliveries') =
      transition now order_id offering cancelled none none deliveries in
    if was_offering
    then (true, deliveries')
    else transition now order_id assigned cancelled none none deliveries'
