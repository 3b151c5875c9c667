-- ===== src/Inventory/Tests.antt =====
-- The service at restaurant 1, which has five of item 10 and two of item 11, and two kitchen slots.
use smart_food_ops.Prelude.{ℕ, ◌≤◌, ◌≡◌, refl, true, none, List, [], ◌∷◌, nat_eq, pair_eq, arith}
use smart_food_ops.Table.{lookup, insert}
use smart_food_ops.Inventory.Rows.{Reservation, ReservationLine, World, expired_reason, active}
use smart_food_ops.Inventory.Service.{
  Config, reserve, reserved, release, insufficient_stock, decrement_all, short_items, restore_all,
}
use smart_food_ops.Inventory.Valid.{IsValid, available}
use smart_food_ops.Inventory.Conserve.{
  reserve_conserves, release_conserves, Reserves, Releases, is_live,
}
use smart_food_ops.Inventory.History.{
  Call, sets_stock, sets_capacity, reserves, releases, serve, fresh, history-IsValid,
}
use smart_food_ops.Inventory.Admit.{reserve_granted}
use smart_food_ops.Inventory.Stock.{qty_of}
use smart_food_ops.Inventory.Cases.{new_row, is_created}

abbrev cfg : Config
cfg = record { default_capacity = 10; reservation_ttl_seconds = 1800 }

abbrev line : ℕ → ℕ → ReservationLine
line item_id qty = record { item_id = item_id; qty = qty }

-- Item 10 stands in two lines.
abbrev basket : List ReservationLine
basket = line 10 2 ∷ line 11 1 ∷ line 10 2 ∷ []

abbrev opening : List Call
opening = sets_stock 1 10 5 ∷ sets_stock 1 11 2 ∷ sets_capacity 1 2 ∷ []

abbrev open_world : World
open_world = record {
  stock = ((1, 10), 5) ∷ ((1, 11), 2) ∷ [];
  loads = (1, record { active = 0; capacity = 2 }) ∷ [];
  reservations = [];
  outbox = [];
}

abbrev first : Reservation
first = record { restaurant_id = 1; lines = basket; status = active; expires_at = 1900 }

abbrev busy : World
busy = (reserve cfg 100 7 1 basket none open_world).1

basket_leaves_one : available (1, 10) busy ≡ 1
unfolding reserve decrement_all short_items lookup insert
basket_leaves_one = refl

-- Each of two lines is covered alone, and together they are not: nothing is taken.
doubled_line_refused :
    reserve cfg 100 7 1 (line 10 3 ∷ line 10 3 ∷ []) none open_world
    ≡ (insufficient_stock (10 ∷ []), open_world)
unfolding reserve decrement_all short_items lookup insert
doubled_line_refused = refl

reserve_conserves_example :
    let (answer, w') = reserve cfg 100 7 1 basket none open_world in
    Reserves (is_created answer) 7 1 basket (1, 10) 1 open_world w'
reserve_conserves_example = reserve_conserves cfg 100 7 1 basket none (1, 10) 1 open_world

history-IsValid_example : IsValid (
    serve cfg
      (sets_stock 1 10 5 ∷ reserves 100 7 1 basket none ∷ releases 7 expired_reason ∷ [])
      fresh)
history-IsValid_example =
    history-IsValid cfg
      (sets_stock 1 10 5 ∷ reserves 100 7 1 basket none ∷ releases 7 expired_reason ∷ [])

-- A world with one active reservation, in which the invariant holds.
abbrev held_world : World
held_world = record {
  stock = ((1, 10), 1) ∷ ((1, 11), 1) ∷ [];
  loads = (1, record { active = 1; capacity = 2 }) ∷ [];
  reservations = (7, first) ∷ [];
  outbox = [];
}

held_world-IsValid : IsValid held_world
unfolding lookup
held_world-IsValid = record {
  slots = λ r. ground arith;
  stocked = ((refl, (refl, (refl, tt))), tt);
}

release_conserves_example :
    let (done, w') = release 7 expired_reason held_world in
    (done ≡ is_live (lookup 7 held_world.reservations)) × Releases done 7 (1, 10) 1 held_world w'
release_conserves_example =
    release_conserves 7 expired_reason (1, 10) 1 held_world held_world-IsValid

release_restores : (release 7 expired_reason held_world).1.stock ≡ open_world.stock
unfolding release restore_all lookup insert
release_restores = refl

two_of_ten : (item_id : ℕ) → qty_of item_id (line 10 2 ∷ []) ≤ available (1, item_id) open_world
unfolding lookup
two_of_ten item_id = ground arith

reserve_granted_example :
    (reserve cfg 100 7 1 (line 10 2 ∷ []) none open_world).0
    ≡ reserved (new_row cfg 100 7 1 (line 10 2 ∷ []) none open_world) true
unfolding lookup
reserve_granted_example =
    reserve_granted cfg 100 7 1 (line 10 2 ∷ []) none open_world refl (omega arith) (omega arith)
      two_of_ten
