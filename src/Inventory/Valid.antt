-- ===== src/Inventory/Valid.antt =====
-- The invariant of the inventory: slots in use are live reservations, and what an active
-- reservation holds has a stock row to go back to.
use smart_food_ops.Prelude.{
  ℕ, ◌≡◌, ◌&&◌, List, nat_beq, nat_eq, pair_eq, if◌then◌else◌, Option, none, some,
}
use smart_food_ops.Table.{lookup}
use smart_food_ops.Table.Rows.{AllRows}
use smart_food_ops.Table.Sum.{sum_by}
use smart_food_ops.Inventory.Rows.{
  ReservationStatus, is_active, Reservation, ReservationLine, Load, World, active,
}
use smart_food_ops.Inventory.Repo.{Stock}
use smart_food_ops.Inventory.Service.{available_of}
use smart_food_ops.Inventory.Stock.{HasRows, asked}

abbrev pub used_of : Option Load → ℕ
used_of none = 0
used_of (some load) = load.active

-- 1 for an active reservation at this restaurant.
abbrev pub live_at : ℕ → Reservation → ℕ
live_at restaurant_id row =
    if is_active row.status && nat_beq row.restaurant_id restaurant_id then 1 else 0

abbrev pub live : ℕ → World → ℕ
live restaurant_id w = sum_by (live_at restaurant_id) w.reservations

-- What a reservation, while active, keeps of one item at one restaurant.
abbrev pub held_by : ℕ × ℕ → Reservation → ℕ
held_by key row = if is_active row.status then asked row.restaurant_id row.lines key else 0

abbrev pub held : ℕ × ℕ → World → ℕ
held key w = sum_by (held_by key) w.reservations

abbrev pub available : ℕ × ℕ → World → ℕ
available key w = available_of (lookup key w.stock)

abbrev pub HasRowsIf : ReservationStatus → Stock → ℕ → List ReservationLine → Type 0
HasRowsIf active stock restaurant_id lines = HasRows stock restaurant_id lines
HasRowsIf _ stock restaurant_id lines = Unit

abbrev pub IsStocked : Stock → Reservation → Type 0
IsStocked stock row = HasRowsIf row.status stock row.restaurant_id row.lines

pub record IsValid (w : World) : Type 0 where
  pub slots : (restaurant_id : ℕ) → used_of (lookup restaurant_id w.loads) ≡ live restaurant_id w
  pub stocked : AllRows (IsStocked w.stock) w.reservations
