-- ===== src/Inventory/Cases.antt =====
-- How a call of the service can end, with what it has found on the way.
use smart_food_ops.Prelude.{
  ℕ, ◌+◌, ◌≡◌, ◌⊎◌, Bool, true, false, List, ◌++◌, nat_eq, pair_eq, Option, none, some, arith,
  Option-cases, Bool-cases, inl, inr, [], ◌∷◌, refl,
}
use smart_food_ops.Table.{lookup, insert}
use smart_food_ops.Inventory.Rows.{
  ReservationStatus, is_active, Reservation, ReservationLine, World, active, Reason, stock_reserved,
  reservation_released, reservation_consumed,
}
use smart_food_ops.Inventory.Repo.{Stock, Loads, occupy_slot, free_slot}
use smart_food_ops.Inventory.Service.{
  Config, ReserveResult, reserved, reserve, release, commit, release_target, decrement_all,
  Decremented, taken, lost, effective_ttl, short_items, ensure_load_row, restore_all,
}

abbrev pub is_created : ReserveResult → Bool
is_created (reserved _ created) = created
is_created _ = false

Decremented-cases :
    (d : Decremented) → ((stock : Stock) × (d ≡ taken stock)) ⊎ ((item : ℕ) × (d ≡ lost item))
Decremented-cases (taken stock) = inl (stock, refl)
Decremented-cases (lost item) = inr (item, refl)

List-cases : (l : List ℕ) → (l ≡ []) ⊎ ((item : ℕ) × (items : List ℕ) × (l ≡ item ∷ items))
List-cases [] = inl refl
List-cases (item ∷ items) = inr (item, items, refl)

module _ (cfg : Config) (now order_id restaurant_id : ℕ) (lines : List ReservationLine)
    (ttl : Option ℕ) (w : World) where
  abbrev pub new_row : Reservation
  new_row = record {
    restaurant_id = restaurant_id;
    lines = lines;
    status = active;
    expires_at = now + effective_ttl cfg ttl;
  }

  abbrev pub occupied : Bool × Loads
  occupied = occupy_slot restaurant_id (ensure_load_row cfg restaurant_id w.loads)

  -- What `reserve` has found and done when it creates a reservation.
  pub record IsCreated (result : ReserveResult × World) : Type 0 where
    pub stock : Stock
    pub was_new : lookup order_id w.reservations ≡ none
    pub had_slot : occupied.0 ≡ true
    pub covered : short_items restaurant_id lines w.stock ≡ []
    pub decremented : decrement_all restaurant_id lines w.stock ≡ taken stock
    pub done : result ≡ (
      reserved new_row true,
      record w {
        stock = stock;
        loads = occupied.1;
        reservations = insert order_id new_row w.reservations;
        outbox = w.outbox ++ stock_reserved order_id restaurant_id lines ∷ [];
      },
    )

  pub reserve-cases :
      (IsCreated (reserve cfg now order_id restaurant_id lines ttl w))
      ⊎ (((reserve cfg now order_id restaurant_id lines ttl w).1 ≡ w)
          × (is_created (reserve cfg now order_id restaurant_id lines ttl w).0 ≡ false))
  unfolding reserve
  reserve-cases = elim (Option-cases (lookup order_id w.reservations)) [
    | inr (existing, found) ↦ inr (ground arith, ground arith)
    | inl new ↦ elim (Bool-cases occupied.0) [
      | inr full ↦ inr (ground arith, ground arith)
      | inl free ↦ elim (Decremented-cases (decrement_all restaurant_id lines w.stock)) [
        | inr (item, raced) ↦ inr (ground arith, ground arith)
        | inl (stock, all) ↦ elim (List-cases (short_items restaurant_id lines w.stock)) [
          | inr (item, items, short) ↦ inr (ground arith, ground arith)
          | inl covered ↦ inl (record {
            stock = stock;
            was_new = new;
            had_slot = free;
            covered = covered;
            decremented = all;
            done = ground arith;
          })
        ]
      ]
    ]
  ]

-- What `release` and `commit` have found when they finish a reservation.
pub record WasActive (order_id : ℕ) (w : World) : Type 0 where
  pub row : Reservation
  pub found : lookup order_id w.reservations ≡ some row
  pub was_active : row.status ≡ active

-- The world after a release, or after a commit.
abbrev pub released_world : ℕ → Reason → Reservation → World → World
released_world order_id reason row w = record w {
  stock = restore_all row.restaurant_id row.lines w.stock;
  loads = free_slot row.restaurant_id w.loads;
  reservations = insert order_id (record row { status = release_target reason }) w.reservations;
  outbox =
      w.outbox
      ++ reservation_released order_id row.restaurant_id row.lines (release_target reason) reason
        ∷ [];
}

abbrev pub committed_world : ℕ → Reservation → World → World
committed_world order_id row w = record w {
  loads = free_slot row.restaurant_id w.loads;
  reservations =
      insert order_id (record row { status = ReservationStatus.consumed }) w.reservations;
  outbox = w.outbox ++ reservation_consumed order_id row.restaurant_id row.lines ∷ [];
}

find_active :
    (order_id : ℕ) (w : World) (row : Reservation)
    → lookup order_id w.reservations ≡ some row
    → (WasActive order_id w) ⊎ (is_active row.status ≡ false)
find_active order_id w row found = elim (Bool-cases (is_active row.status)) [
  | inl yes_active ↦ inl (record { row = row; found = found; was_active = ground arith })
  | inr ended ↦ inr ended
]

pub release-cases :
    (order_id : ℕ) (reason : Reason) (w : World)
    → ((a : WasActive order_id w) × (release order_id reason w
          ≡ (true, released_world order_id reason a.row w)))
      ⊎ (release order_id reason w ≡ (false, w))
unfolding release
release-cases order_id reason w = elim (Option-cases (lookup order_id w.reservations)) [
  | inl absent ↦ inr (ground arith)
  | inr (row, found) ↦ elim (find_active order_id w row found) [
    | inl a ↦ inl (a, ground (arith, a.found, a.was_active))
    | inr ended ↦ inr (ground arith)
  ]
]

pub commit-cases :
    (order_id : ℕ) (w : World)
    → ((a : WasActive order_id w) × (commit order_id w ≡ (true, committed_world order_id a.row w)))
      ⊎ (commit order_id w ≡ (false, w))
unfolding commit
commit-cases order_id w = elim (Option-cases (lookup order_id w.reservations)) [
  | inl absent ↦ inr (ground arith)
  | inr (row, found) ↦ elim (find_active order_id w row found) [
    | inl a ↦ inl (a, ground (arith, a.found, a.was_active))
    | inr ended ↦ inr (ground arith)
  ]
]
