-- ===== src/Inventory/Admit.antt =====
-- Exactly when an order is admitted: a free slot, and enough of every item for all its lines.
use smart_food_ops.Prelude.{
  ℕ, ◌-◌, ◌≤◌, ◌<◌, ◌≡◌, true, nat_eq, pair_eq, Option, none, some, arith, Option-cases, inl, inr,
  nat_beq_iff, refl, List, [], ◌∷◌, All, nat_beq_refl,
}
use smart_food_ops.Table.{lookup, lookup-insert, lookup-insert_self}
use smart_food_ops.Inventory.Rows.{Reservation, ReservationLine, World, Load}
use smart_food_ops.Inventory.Repo.{Stock, decrement_stock, occupy_slot}
use smart_food_ops.Inventory.Service.{
  Config, reserve, reserved, short_items, decrement_all, taken, available_of, ensure_load_row,
}
use smart_food_ops.Inventory.Cases.{new_row, reserve-cases}
use smart_food_ops.Inventory.Stock.{qty_of, decrement_all-available}
use smart_food_ops.Inventory.Valid.{available}

-- Every line asks for something.
abbrev pub IsOrder : List ReservationLine → Type 0
IsOrder lines = All (λ line. 1 ≤ line.qty) lines

qty-le-qty_of :
    (line : ReservationLine) (lines : List ReservationLine)
    → line.qty ≤ qty_of line.item_id (line ∷ lines)
qty-le-qty_of line lines = ground (arith, nat_beq_refl line.item_id)

qty_of-tail :
    (item_id : ℕ) (line : ReservationLine) (lines : List ReservationLine)
    → qty_of item_id lines ≤ qty_of item_id (line ∷ lines)
qty_of-tail item_id line lines = ground arith

abbrev Suffices : ℕ → List ReservationLine → Stock → Type 0
Suffices restaurant_id lines stock =
    (item_id : ℕ) → qty_of item_id lines ≤ available_of (lookup (restaurant_id, item_id) stock)

short_items-nil :
    (restaurant_id : ℕ) (lines : List ReservationLine) (stock : Stock)
    → Suffices restaurant_id lines stock
    → short_items restaurant_id lines stock ≡ []
unfolding short_items
short_items-nil restaurant_id [] stock h = refl
short_items-nil restaurant_id (line ∷ lines) stock h = ground (
  arith,
  h line.item_id,
  qty-le-qty_of line lines,
  short_items-nil restaurant_id lines stock (λ i. omega (arith, h i, qty_of-tail i line lines)),
)

-- A covered line is taken, and what is left covers the others.
decrement_covered :
    (restaurant_id : ℕ) (line : ReservationLine) (lines : List ReservationLine) (stock : Stock)
    → 1 ≤ line.qty
    → Suffices restaurant_id (line ∷ lines) stock
    → ((decrement_stock restaurant_id line.item_id line.qty stock).0 ≡ true)
      × Suffices restaurant_id lines (decrement_stock restaurant_id line.item_id line.qty stock).1
decrement_covered restaurant_id line lines stock pos h =
    elim (Option-cases (lookup (restaurant_id, line.item_id) stock)) [
      | inl absent ↦ absurd (ground (arith, h line.item_id, qty-le-qty_of line lines))
      | inr (n, found) ↦ (
        ground (arith, h line.item_id, qty-le-qty_of line lines),
        λ i. ground (
          arith,
          h i,
          h line.item_id,
          qty-le-qty_of line lines,
          nat_beq_iff line.item_id i,
          lookup-insert (restaurant_id, line.item_id) (restaurant_id, i) (n - line.qty) stock,
        ),
      )
    ]

decrement_all-taken :
    (restaurant_id : ℕ) (lines : List ReservationLine) (stock : Stock)
    → IsOrder lines
    → Suffices restaurant_id lines stock
    → (stock' : Stock) × (decrement_all restaurant_id lines stock ≡ taken stock')
unfolding decrement_all
decrement_all-taken restaurant_id [] stock order h = (stock, refl)
decrement_all-taken restaurant_id (line ∷ lines) stock order h =
    let (enough, left) = decrement_covered restaurant_id line lines stock order.0 h in
    let (stock', rest) =
      decrement_all-taken restaurant_id lines
        (decrement_stock restaurant_id line.item_id line.qty stock).1 order.1 left in
    (stock', ground (arith, enough, rest))

-- The load that the call sees: the row, or a new one.
abbrev pub load_of : Config → ℕ → World → Load
load_of cfg restaurant_id w = elim (lookup restaurant_id w.loads) [
  | none ↦ record { active = 0; capacity = cfg.default_capacity }
  | some row ↦ row
]

occupied_of_room :
    (cfg : Config) (restaurant_id : ℕ) (w : World)
    → (load_of cfg restaurant_id w).active < (load_of cfg restaurant_id w).capacity
    → (occupy_slot restaurant_id (ensure_load_row cfg restaurant_id w.loads)).0 ≡ true
occupied_of_room cfg restaurant_id w h = ground (
  arith,
  lookup-insert_self restaurant_id (record { active = 0; capacity = cfg.default_capacity }) w.loads,
)

-- A new order of positive quantities is granted when its restaurant has a free slot and the shelf
-- covers, for every item, what all its lines together ask for.
pub reserve_granted :
    (cfg : Config) (now order_id restaurant_id : ℕ) (lines : List ReservationLine) (ttl : Option ℕ)
    (w : World)
    → lookup order_id w.reservations ≡ none
    → (load_of cfg restaurant_id w).active < (load_of cfg restaurant_id w).capacity
    → IsOrder lines
    → ((item_id : ℕ) → qty_of item_id lines ≤ available (restaurant_id, item_id) w)
    → (reserve cfg now order_id restaurant_id lines ttl w).0
      ≡ reserved (new_row cfg now order_id restaurant_id lines ttl w) true
unfolding reserve
reserve_granted cfg now order_id restaurant_id lines ttl w new room order covered =
    let (stock, all) = decrement_all-taken restaurant_id lines w.stock order covered in
    ground (
      arith,
      all,
      short_items-nil restaurant_id lines w.stock covered,
      occupied_of_room cfg restaurant_id w room,
    )

room_of_occupied :
    (cfg : Config) (restaurant_id : ℕ) (w : World)
    → (occupy_slot restaurant_id (ensure_load_row cfg restaurant_id w.loads)).0 ≡ true
    → (load_of cfg restaurant_id w).active < (load_of cfg restaurant_id w).capacity
room_of_occupied cfg restaurant_id w h = ground (
  arith,
  lookup-insert_self restaurant_id (record { active = 0; capacity = cfg.default_capacity }) w.loads,
)

decrement_one_item :
    (restaurant_id : ℕ) (lines : List ReservationLine) (i : ℕ) (stock stock' : Stock)
    → decrement_all restaurant_id lines stock ≡ taken stock'
    → qty_of i lines ≤ available_of (lookup (restaurant_id, i) stock)
decrement_one_item restaurant_id lines i stock stock' h = ground (
  arith,
  decrement_all-available restaurant_id lines (restaurant_id, i) stock stock' h,
  nat_beq_refl restaurant_id,
)

-- Whenever `reserve` creates a reservation, the order was new, its restaurant had a free slot, and
-- the shelf covered, for every item, what all its lines together ask for.
pub reserve_sound :
    (cfg : Config) (now order_id restaurant_id : ℕ) (lines : List ReservationLine) (ttl : Option ℕ)
    (w : World) (row : Reservation)
    → (reserve cfg now order_id restaurant_id lines ttl w).0 ≡ reserved row true
    → (lookup order_id w.reservations ≡ none)
      × ((load_of cfg restaurant_id w).active < (load_of cfg restaurant_id w).capacity)
      × ((item_id : ℕ) → qty_of item_id lines ≤ available (restaurant_id, item_id) w)
reserve_sound cfg now order_id restaurant_id lines ttl w row h =
    elim (reserve-cases cfg now order_id restaurant_id lines ttl w) [
      | inr (same, refused) ↦ absurd (ground (arith, refused, h))
      | inl c ↦ (
        c.was_new,
        room_of_occupied cfg restaurant_id w c.had_slot,
        λ i. omega (arith, decrement_one_item restaurant_id lines i w.stock c.stock c.decremented),
      )
    ]
