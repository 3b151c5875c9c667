-- ===== src/Inventory/Slots.antt =====
-- The slot counters: what each statement on the load table does to the counter of any restaurant.
use smart_food_ops.Prelude.{
  ℕ, ◌+◌, ◌-◌, ◌≡◌, true, nat_beq, nat_eq, if◌then◌else◌, arith, Option-cases, inl, inr,
  nat_beq_iff, ap, sym,
}
use smart_food_ops.Table.{lookup, lookup-insert}
use smart_food_ops.Inventory.Repo.{Loads, occupy_slot, free_slot, insert_load, set_load_capacity}
use smart_food_ops.Inventory.Service.{Config, ensure_load_row}
use smart_food_ops.Inventory.Valid.{used_of}

same_load : (j k : ℕ) (loads : Loads) → nat_beq j k ≡ true → lookup k loads ≡ lookup j loads
same_load j k loads h = ap (λ key. lookup key loads) (sym ((nat_beq_iff j k).0 h))

pub insert_load-used :
    (restaurant_id capacity r : ℕ) (loads : Loads)
    → used_of (lookup r (insert_load restaurant_id capacity loads).1) ≡ used_of (lookup r loads)
insert_load-used restaurant_id capacity r loads = ground (
  arith,
  lookup-insert restaurant_id r (record { active = 0; capacity = capacity }) loads,
  same_load restaurant_id r loads,
)

pub ensure-used :
    (cfg : Config) (restaurant_id r : ℕ) (loads : Loads)
    → used_of (lookup r (ensure_load_row cfg restaurant_id loads)) ≡ used_of (lookup r loads)
ensure-used cfg restaurant_id r loads =
    ground (arith, insert_load-used restaurant_id cfg.default_capacity r loads)

pub set_load_capacity-used :
    (restaurant_id capacity r : ℕ) (loads : Loads)
    → used_of (lookup r (set_load_capacity restaurant_id capacity loads).1)
      ≡ used_of (lookup r loads)
set_load_capacity-used restaurant_id capacity r loads =
    elim (Option-cases (lookup restaurant_id loads)) [
      | inl absent ↦ ground arith
      | inr (load, found) ↦ ground (
        arith,
        lookup-insert restaurant_id r (record load { capacity = capacity }) loads,
        same_load restaurant_id r loads,
      )
    ]

pub occupy_slot-used :
    (restaurant_id r : ℕ) (loads : Loads)
    → (occupy_slot restaurant_id loads).0 ≡ true
    → used_of (lookup r (occupy_slot restaurant_id loads).1)
      ≡ used_of (lookup r loads) + (if nat_beq restaurant_id r then 1 else 0)
occupy_slot-used restaurant_id r loads h = elim (Option-cases (lookup restaurant_id loads)) [
  | inl absent ↦ ground arith
  | inr (load, found) ↦ ground (
    arith,
    lookup-insert restaurant_id r (record load { active = load.active + 1 }) loads,
    same_load restaurant_id r loads,
  )
]

pub free_slot-used :
    (restaurant_id r : ℕ) (loads : Loads)
    → used_of (lookup r (free_slot restaurant_id loads))
      ≡ used_of (lookup r loads) - (if nat_beq restaurant_id r then 1 else 0)
free_slot-used restaurant_id r loads = elim (Option-cases (lookup restaurant_id loads)) [
  | inl absent ↦ ground (arith, same_load restaurant_id r loads)
  | inr (load, found) ↦ ground (
    arith,
    lookup-insert restaurant_id r (record load { active = load.active - 1 }) loads,
    same_load restaurant_id r loads,
  )
]
