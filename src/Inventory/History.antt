-- ===== src/Inventory/History.antt =====
-- The methods that the API and the catalog consumer call, and whole histories of calls.
use smart_food_ops.Prelude.{
  ℕ, ◌≡◌, Bool, true, false, nat_eq, pair_eq, Option, arith, Option-cases, inl, inr, refl, List, [],
  ◌∷◌,
}
use smart_food_ops.Table.{lookup, lookup-insert}
use smart_food_ops.Table.Rows.{AllRows-map}
use smart_food_ops.Inventory.Rows.{ReservationLine, World, Reason}
use smart_food_ops.Inventory.Repo.{Stock, insert_stock, update_stock, overdue_reservations}
use smart_food_ops.Inventory.Service.{
  Config, reserve, release, commit, expire_overdue, set_stock, set_capacity, provision,
  provision_items,
}
use smart_food_ops.Inventory.Stock.{is_present}
use smart_food_ops.Inventory.Slots.{ensure-used, set_load_capacity-used, insert_load-used}
use smart_food_ops.Inventory.Keeps.{
  IsStocked-same, reserve-IsValid, release-IsValid, commit-IsValid, expire_each-IsValid,
}
use smart_food_ops.Inventory.Valid.{IsValid, IsStocked, used_of}

insert_stock-covers :
    (restaurant_id item_id available : ℕ) (key : ℕ × ℕ) (stock : Stock)
    → is_present (lookup key stock) ≡ true
    → is_present (lookup key (insert_stock restaurant_id item_id available stock).1) ≡ true
insert_stock-covers restaurant_id item_id available key stock h =
    ground (arith, lookup-insert (restaurant_id, item_id) key available stock)

update_stock-covers :
    (restaurant_id item_id available : ℕ) (key : ℕ × ℕ) (stock : Stock)
    → is_present (lookup key stock) ≡ true
    → is_present (lookup key (update_stock restaurant_id item_id available stock).1) ≡ true
update_stock-covers restaurant_id item_id available key stock h =
    ground (arith, lookup-insert (restaurant_id, item_id) key available stock)

-- A change of the stock that loses no row keeps the invariant.
restocked-IsValid :
    (w : World) (w' : World)
    → IsValid w
    → w'.reservations ≡ w.reservations
    → ((r : ℕ) → used_of (lookup r w'.loads) ≡ used_of (lookup r w.loads))
    → ((key : ℕ × ℕ)
        → is_present (lookup key w.stock) ≡ true
        → is_present (lookup key w'.stock) ≡ true)
    → IsValid w'
restocked-IsValid w w' valid same used covers = record {
  slots = λ r. ground (arith, used r, valid.slots r, same);
  stocked = rw same (
      AllRows-map (IsStocked w.stock) (IsStocked w'.stock) w.reservations
        (λ v. IsStocked-same w.stock w'.stock v covers) valid.stocked);
}

provision_items-covers :
    (restaurant_id : ℕ) (known : Stock) (items : List ℕ) (key : ℕ × ℕ) (stock : Stock)
    → is_present (lookup key stock) ≡ true
    → is_present (lookup key (provision_items restaurant_id known items stock)) ≡ true
unfolding provision_items
provision_items-covers restaurant_id known [] key stock h = h
provision_items-covers restaurant_id known (item_id ∷ items) key stock h =
    elim (Option-cases (lookup (restaurant_id, item_id) known)) [
      | inr (n, found) ↦ rw found (provision_items-covers restaurant_id known items key stock h)
      | inl new ↦ rw new (
          provision_items-covers restaurant_id known items key
            (insert_stock restaurant_id item_id 0 stock).1
            (insert_stock-covers restaurant_id item_id 0 key stock h))
    ]

set_stock-IsValid :
    (restaurant_id item_id available : ℕ) (w : World)
    → IsValid w
    → IsValid (set_stock restaurant_id item_id available w)
unfolding set_stock
set_stock-IsValid restaurant_id item_id available w valid =
    restocked-IsValid w _ valid refl (λ r. refl)
      (λ key h. ground (
        arith,
        insert_stock-covers restaurant_id item_id available key w.stock h,
        update_stock-covers restaurant_id item_id available key w.stock h,
      ))

set_capacity-IsValid :
    (restaurant_id capacity : ℕ) (w : World)
    → IsValid w
    → IsValid (set_capacity restaurant_id capacity w)
unfolding set_capacity
set_capacity-IsValid restaurant_id capacity w valid =
    restocked-IsValid w _ valid refl
      (λ r. ground (
        arith,
        insert_load-used restaurant_id capacity r w.loads,
        set_load_capacity-used restaurant_id capacity r w.loads,
      ))
      (λ key h. h)

provision-IsValid :
    (cfg : Config) (is_brand : Bool) (restaurant_id : ℕ) (items : List ℕ) (w : World)
    → IsValid w
    → IsValid (provision cfg is_brand restaurant_id items w)
unfolding provision
provision-IsValid cfg true restaurant_id items w valid = valid
provision-IsValid cfg false restaurant_id items w valid =
    restocked-IsValid w _ valid refl (λ r. ensure-used cfg restaurant_id r w.loads)
      (λ key h. provision_items-covers restaurant_id w.stock items key w.stock h)

-- A call of the service or of the consumer.
pub data Call : Type 0 where
  sets_stock : ℕ → ℕ → ℕ → Call
  sets_capacity : ℕ → ℕ → Call
  reserves : ℕ → ℕ → ℕ → List ReservationLine → Option ℕ → Call
  releases : ℕ → Reason → Call
  commits : ℕ → Call
  expires : ℕ → Call
  provisions : Bool → ℕ → List ℕ → Call

unfoldable pub serve_call : Config → Call → World → World
serve_call cfg (sets_stock r i available) w = set_stock r i available w
serve_call cfg (sets_capacity r capacity) w = set_capacity r capacity w
serve_call cfg (reserves now o r lines ttl) w = (reserve cfg now o r lines ttl w).1
serve_call cfg (releases o reason) w = (release o reason w).1
serve_call cfg (commits o) w = (commit o w).1
serve_call cfg (expires now) w = (expire_overdue now w).1
serve_call cfg (provisions is_brand r items) w = provision cfg is_brand r items w

unfoldable pub serve : Config → List Call → World → World
unfolding serve_call
serve cfg [] w = w
serve cfg (call ∷ calls) w = serve cfg calls (serve_call cfg call w)

abbrev pub fresh : World
fresh = record { stock = []; loads = []; reservations = []; outbox = [] }

serve_call-IsValid :
    (cfg : Config) (call : Call) (w : World) → IsValid w → IsValid (serve_call cfg call w)
unfolding serve_call expire_overdue
serve_call-IsValid cfg (sets_stock r i available) w v = set_stock-IsValid r i available w v
serve_call-IsValid cfg (sets_capacity r capacity) w v = set_capacity-IsValid r capacity w v
serve_call-IsValid cfg (reserves now o r lines ttl) w v = reserve-IsValid cfg now o r lines ttl w v
serve_call-IsValid cfg (releases o reason) w v = release-IsValid o reason w v
serve_call-IsValid cfg (commits o) w v = commit-IsValid o w v
serve_call-IsValid cfg (expires now) w v =
    expire_each-IsValid (overdue_reservations 100 now w.reservations) w v
serve_call-IsValid cfg (provisions is_brand r items) w v =
    provision-IsValid cfg is_brand r items w v

serve-IsValid :
    (cfg : Config) (calls : List Call) (w : World) → IsValid w → IsValid (serve cfg calls w)
unfolding serve
serve-IsValid cfg [] w v = v
serve-IsValid cfg (call ∷ calls) w v =
    serve-IsValid cfg calls (serve_call cfg call w) (serve_call-IsValid cfg call w v)

fresh-IsValid : IsValid fresh
unfolding lookup
fresh-IsValid = record { slots = λ r. refl; stocked = tt }

-- After any calls from empty tables, the invariant holds: every restaurant's `active` counter is
-- the number of its active reservations, and every line of an active reservation has a stock row.
pub history-IsValid : (cfg : Config) (calls : List Call) → IsValid (serve cfg calls fresh)
history-IsValid cfg calls = serve-IsValid cfg calls fresh fresh-IsValid
