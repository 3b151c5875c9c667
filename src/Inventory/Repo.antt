-- ===== src/Inventory/Repo.antt =====
-- services/inventory/inventory/adapters/repo.py: the guarded statements on the inventory tables.
use smart_food_ops.Prelude.{
  ℕ, ◌+◌, ◌-◌, Bool, true, false, ◌&&◌, Option, none, some, List, [], ◌∷◌, ltb, leb, nat_eq,
  pair_eq, if◌then◌else◌, take, map,
}
use smart_food_ops.Table.{Table, insert_new, update_where}
use smart_food_ops.Inventory.Rows.{ReservationStatus, is_active, Reservation, Load}

abbrev pub Stock : Type 0
Stock = Table (ℕ × ℕ) ℕ

abbrev pub Loads : Type 0
Loads = Table ℕ Load

-- INSERT … ON CONFLICT DO NOTHING: whether a row went in.
abbrev pub inserted : {A : Type 0} → A → Option A → Bool × A
inserted old none = (false, old)
inserted old (some new) = (true, new)

abbrev pub update_stock : ℕ → ℕ → ℕ → Stock → Bool × Stock
update_stock restaurant_id item_id available stock =
    update_where (restaurant_id, item_id) (λ _. true) (λ _. available) stock

abbrev pub insert_stock : ℕ → ℕ → ℕ → Stock → Bool × Stock
insert_stock restaurant_id item_id available stock =
    inserted stock (insert_new (restaurant_id, item_id) available stock)

-- The oversell guard: the row must hold at least `qty`.
abbrev pub decrement_stock : ℕ → ℕ → ℕ → Stock → Bool × Stock
decrement_stock restaurant_id item_id qty stock =
    update_where (restaurant_id, item_id) (λ available. leb qty available)
      (λ available. available - qty) stock

abbrev pub increment_stock : ℕ → ℕ → ℕ → Stock → Bool × Stock
increment_stock restaurant_id item_id qty stock =
    update_where (restaurant_id, item_id) (λ _. true) (λ available. available + qty) stock

abbrev pub insert_load : ℕ → ℕ → Loads → Bool × Loads
insert_load restaurant_id capacity loads =
    inserted loads (insert_new restaurant_id (record { active = 0; capacity = capacity }) loads)

abbrev pub set_load_capacity : ℕ → ℕ → Loads → Bool × Loads
set_load_capacity restaurant_id capacity loads =
    update_where restaurant_id (λ _. true) (λ load. record load { capacity = capacity }) loads

abbrev pub occupy_slot : ℕ → Loads → Bool × Loads
occupy_slot restaurant_id loads =
    update_where restaurant_id (λ load. ltb load.active load.capacity)
      (λ load. record load { active = load.active + 1 }) loads

abbrev pub free_slot : ℕ → Loads → Loads
free_slot restaurant_id loads =
    (update_where restaurant_id (λ load. ltb 0 load.active)
      (λ load. record load { active = load.active - 1 }) loads).1

-- `finish_reservation`: whether the row was active, and the table after.
abbrev pub finish_reservation :
    ℕ → ReservationStatus → Table ℕ Reservation → Bool × Table ℕ Reservation
finish_reservation order_id target reservations =
    update_where order_id (λ row. is_active row.status) (λ row. record row { status = target })
      reservations

-- Ascending by expiry; equal expiries keep the order of the table.
unfoldable pub insert_by_expiry : ℕ × ℕ → List (ℕ × ℕ) → List (ℕ × ℕ)
insert_by_expiry entry [] = entry ∷ []
insert_by_expiry entry (other ∷ rest) =
    if leb entry.1 other.1 then entry ∷ other ∷ rest else other ∷ insert_by_expiry entry rest

-- The active reservations past their expiry, with it, ordered.
unfoldable pub overdue_from : ℕ → Table ℕ Reservation → List (ℕ × ℕ)
unfolding insert_by_expiry
overdue_from now [] = []
overdue_from now ((order_id, row) ∷ reservations) =
    let rest = overdue_from now reservations in
    if is_active row.status && ltb row.expires_at now
    then insert_by_expiry (order_id, row.expires_at) rest
    else rest

unfoldable pub overdue_reservations : ℕ → ℕ → Table ℕ Reservation → List ℕ
unfolding overdue_from
overdue_reservations limit now reservations =
    map (λ entry. entry.0) (take limit (overdue_from now reservations))
