-- ===== src/Inventory/Stock.antt =====
-- What the loops over the lines of an order do to the stock.
use smart_food_ops.Prelude.{
  ℕ, ◌+◌, ◌-◌, ◌≡◌, ap, sym, Bool, true, false, Option, none, some, List, [], ◌∷◌, nat_beq, nat_eq,
  pair_eq, pair_beq, pair_beq_iff, arith, if◌then◌else◌, All, Option-cases, Bool-cases, inl, inr,
}
use smart_food_ops.Table.{lookup, lookup-insert}
use smart_food_ops.Inventory.Rows.{ReservationLine}
use smart_food_ops.Inventory.Repo.{Stock, decrement_stock, increment_stock}
use smart_food_ops.Inventory.Service.{available_of, taken, decrement_all, restore_all}

-- How much of one item the lines ask for.
abbrev pub qty_of : ℕ → List ReservationLine → ℕ
qty_of item_id [] = 0
qty_of item_id (line ∷ lines) =
    (if nat_beq line.item_id item_id then line.qty else 0) + qty_of item_id lines

-- The same of one item at one restaurant, for lines at `restaurant_id`.
abbrev pub asked : ℕ → List ReservationLine → ℕ × ℕ → ℕ
asked restaurant_id lines (r, i) = if nat_beq restaurant_id r then qty_of i lines else 0

abbrev pub is_present : Option ℕ → Bool
is_present none = false
is_present (some _) = true

-- No row has vanished.
abbrev pub Covers : Stock → Stock → Type 0
Covers stock stock' =
    (key : ℕ × ℕ) → is_present (lookup key stock) ≡ true → is_present (lookup key stock') ≡ true

abbrev pub HasRows : Stock → ℕ → List ReservationLine → Type 0
HasRows stock restaurant_id lines =
    All (λ line. is_present (lookup (restaurant_id, line.item_id) stock) ≡ true) lines

same_row : (j k : ℕ × ℕ) (stock : Stock) → pair_beq j k ≡ true → lookup k stock ≡ lookup j stock
same_row j k stock h = ap (λ key. lookup key stock) (sym ((pair_beq_iff j k).0 h))

decrement_one :
    (restaurant_id item_id qty : ℕ) (key : ℕ × ℕ) (stock : Stock)
    → (decrement_stock restaurant_id item_id qty stock).0 ≡ true
    → let stock' = (decrement_stock restaurant_id item_id qty stock).1 in
      (available_of (lookup key stock') + (if pair_beq (restaurant_id, item_id) key then qty else 0)
        ≡ available_of (lookup key stock))
      × (is_present (lookup key stock') ≡ is_present (lookup key stock))
      × (is_present (lookup (restaurant_id, item_id) stock) ≡ true)
decrement_one restaurant_id item_id qty key stock h =
    elim (Option-cases (lookup (restaurant_id, item_id) stock)) [
      | inl absent ↦ ground arith
      | inr (available, found) ↦ ground (
        arith,
        lookup-insert (restaurant_id, item_id) key (available - qty) stock,
        pair_beq_iff (restaurant_id, item_id) key,
        same_row (restaurant_id, item_id) key stock,
      )
    ]

increment_one :
    (restaurant_id item_id qty : ℕ) (key : ℕ × ℕ) (stock : Stock)
    → is_present (lookup (restaurant_id, item_id) stock) ≡ true
    → let stock' = (increment_stock restaurant_id item_id qty stock).1 in
      (available_of (lookup key stock')
        ≡ available_of (lookup key stock)
          + (if pair_beq (restaurant_id, item_id) key then qty else 0))
      × (is_present (lookup key stock') ≡ is_present (lookup key stock))
increment_one restaurant_id item_id qty key stock h =
    elim (Option-cases (lookup (restaurant_id, item_id) stock)) [
      | inl absent ↦ ground arith
      | inr (available, found) ↦ ground (
        arith,
        lookup-insert (restaurant_id, item_id) key (available + qty) stock,
        pair_beq_iff (restaurant_id, item_id) key,
        same_row (restaurant_id, item_id) key stock,
      )
    ]

-- The loop takes from each item exactly what the lines ask for, repeated items summed, and only
-- from rows that exist.
pub decrement_all-available :
    (restaurant_id : ℕ) (lines : List ReservationLine) (key : ℕ × ℕ) (stock stock' : Stock)
    → decrement_all restaurant_id lines stock ≡ taken stock'
    → (available_of (lookup key stock') + asked restaurant_id lines key
        ≡ available_of (lookup key stock))
      × (is_present (lookup key stock') ≡ is_present (lookup key stock))
unfolding decrement_all
decrement_all-available restaurant_id [] key stock stock' h = ground arith
decrement_all-available restaurant_id (line ∷ lines) key stock stock' h = ground (
  arith,
  decrement_one restaurant_id line.item_id line.qty key stock,
  decrement_all-available restaurant_id lines key
      (decrement_stock restaurant_id line.item_id line.qty stock).1 stock',
)

pub HasRows-same :
    (stock stock' : Stock) (restaurant_id : ℕ) (lines : List ReservationLine)
    → ((key : ℕ × ℕ) → is_present (lookup key stock) ≡ true → is_present (lookup key stock') ≡ true)
    → HasRows stock restaurant_id lines
    → HasRows stock' restaurant_id lines
HasRows-same stock stock' restaurant_id [] covers h = tt
HasRows-same stock stock' restaurant_id (line ∷ lines) covers h = (
  covers (restaurant_id, line.item_id) h.0,
  HasRows-same stock stock' restaurant_id lines covers h.1,
)

-- A line that was taken had a row.
pub decrement_all-HasRows :
    (restaurant_id : ℕ) (lines : List ReservationLine) (stock stock' : Stock)
    → decrement_all restaurant_id lines stock ≡ taken stock'
    → HasRows stock restaurant_id lines
unfolding decrement_all
decrement_all-HasRows restaurant_id [] stock stock' h = tt
decrement_all-HasRows restaurant_id (line ∷ lines) stock stock' h =
    let first = (decrement_stock restaurant_id line.item_id line.qty stock).1 in
    elim (Bool-cases (decrement_stock restaurant_id line.item_id line.qty stock).0) [
      | inl enough ↦ (
        (decrement_one restaurant_id line.item_id line.qty (0, 0) stock enough).2,
        HasRows-same first stock restaurant_id lines
            (λ key present.
              ground (arith, decrement_one restaurant_id line.item_id line.qty key stock enough))
            (decrement_all-HasRows restaurant_id lines first stock' (ground arith)),
      )
      | inr short ↦ ground arith
    ]

-- Where every line has a row, the restoring loop puts back what the lines ask for.
pub restore_all-available :
    (restaurant_id : ℕ) (lines : List ReservationLine) (key : ℕ × ℕ) (stock : Stock)
    → HasRows stock restaurant_id lines
    → let stock' = restore_all restaurant_id lines stock in
      (available_of (lookup key stock')
        ≡ available_of (lookup key stock) + asked restaurant_id lines key)
      × (is_present (lookup key stock') ≡ is_present (lookup key stock))
unfolding restore_all
restore_all-available restaurant_id [] key stock h = ground arith
restore_all-available restaurant_id (line ∷ lines) key stock h =
    let first = (increment_stock restaurant_id line.item_id line.qty stock).1 in
    let rest = restore_all-available restaurant_id lines key first (
      HasRows-same stock first restaurant_id lines
        (λ k present. ground (arith, increment_one restaurant_id line.item_id line.qty k stock h.0))
        h.1) in
    ground (arith, rest, increment_one restaurant_id line.item_id line.qty key stock h.0)
