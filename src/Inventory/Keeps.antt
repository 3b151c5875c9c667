-- ===== src/Inventory/Keeps.antt =====
-- Every method keeps the invariant.
use smart_food_ops.Prelude.{
  ℕ, ◌≡◌, true, false, nat_eq, pair_eq, Option, arith, inl, inr, refl, subst, List, [], ◌∷◌,
}
use smart_food_ops.Table.{lookup, insert}
use smart_food_ops.Table.Rows.{AllRows-map, AllRows-insert, AllRows-lookup}
use smart_food_ops.Table.Sum.{sum_by, sum_by-insert, sum_by-insert_new}
use smart_food_ops.Inventory.Rows.{
  ReservationStatus, is_active, Reservation, ReservationLine, World, active, Reason, expired_reason,
  released, expired, consumed,
}
use smart_food_ops.Inventory.Repo.{Stock, free_slot}
use smart_food_ops.Inventory.Service.{
  Config, reserve, release, commit, release_target, expire_each, ensure_load_row, restore_all,
}
use smart_food_ops.Inventory.Cases.{
  new_row, IsCreated, reserve-cases, release-cases, commit-cases, WasActive, released_world,
  committed_world,
}
use smart_food_ops.Inventory.Stock.{
  is_present, HasRows-same, decrement_all-available, decrement_all-HasRows, restore_all-available,
}
use smart_food_ops.Inventory.Slots.{ensure-used, occupy_slot-used, free_slot-used}
use smart_food_ops.Inventory.Valid.{IsValid, IsStocked, HasRowsIf, live_at, live, used_of}

-- Reservations stay stocked where no stock row vanishes.
pub IsStocked-same :
    (stock stock' : Stock) (row : Reservation)
    → ((key : ℕ × ℕ) → is_present (lookup key stock) ≡ true → is_present (lookup key stock') ≡ true)
    → IsStocked stock row
    → IsStocked stock' row
IsStocked-same stock stock' row covers h = go row.status h
  where
    go :
        (s : ReservationStatus)
        → HasRowsIf s stock row.restaurant_id row.lines
        → HasRowsIf s stock' row.restaurant_id row.lines
    go active k = HasRows-same stock stock' row.restaurant_id row.lines covers k
    go released k = k
    go expired k = k
    go consumed k = k

created-IsValid :
    (cfg : Config) (now order_id restaurant_id : ℕ) (lines : List ReservationLine) (ttl : Option ℕ)
    (w : World)
    → IsValid w
    → IsCreated cfg now order_id restaurant_id lines ttl w
        (reserve cfg now order_id restaurant_id lines ttl w)
    → IsValid (reserve cfg now order_id restaurant_id lines ttl w).1
created-IsValid cfg now order_id restaurant_id lines ttl w valid c =
    let row = new_row cfg now order_id restaurant_id lines ttl w in
    let covers = λ (key : ℕ × ℕ).
      decrement_all-available restaurant_id lines key w.stock c.stock c.decremented in
    rw c.done (record {
      slots = λ r. ground (
        arith,
        valid.slots r,
        c.had_slot,
        ensure-used cfg restaurant_id r w.loads,
        occupy_slot-used restaurant_id r (ensure_load_row cfg restaurant_id w.loads) c.had_slot,
        sum_by-insert_new (live_at r) order_id row w.reservations c.was_new,
      );
      stocked =
          AllRows-insert (IsStocked c.stock) order_id row w.reservations
            (HasRows-same w.stock c.stock restaurant_id lines (λ key h. ground (arith, covers key))
              (decrement_all-HasRows restaurant_id lines w.stock c.stock c.decremented))
            (AllRows-map (IsStocked w.stock) (IsStocked c.stock) w.reservations
              (λ v. IsStocked-same w.stock c.stock v (λ key h. ground (arith, covers key)))
              valid.stocked);
    })

pub reserve-IsValid :
    (cfg : Config) (now order_id restaurant_id : ℕ) (lines : List ReservationLine) (ttl : Option ℕ)
    (w : World)
    → IsValid w
    → IsValid (reserve cfg now order_id restaurant_id lines ttl w).1
reserve-IsValid cfg now order_id restaurant_id lines ttl w valid =
    elim (reserve-cases cfg now order_id restaurant_id lines ttl w) [
      | inl c ↦ created-IsValid cfg now order_id restaurant_id lines ttl w valid c
      | inr (same, _) ↦ rw same valid
    ]

-- The three final states, which hold nothing and use no slot.
abbrev IsFinal : ReservationStatus → Type 0
IsFinal s = is_active s ≡ false

ended_slots :
    (order_id r : ℕ) (target : ReservationStatus) (w : World) (a : WasActive order_id w)
    → IsFinal target
    → used_of (lookup r w.loads) ≡ live r w
    → used_of (lookup r (free_slot a.row.restaurant_id w.loads))
      ≡ sum_by (live_at r) (insert order_id (record a.row { status = target }) w.reservations)
ended_slots order_id r target w a final valid = ground (
  arith,
  a.found,
  a.was_active,
  free_slot-used a.row.restaurant_id r w.loads,
  sum_by-insert (live_at r) order_id (record a.row { status = target }) a.row w.reservations
      a.found,
)

final-IsStocked :
    (stock : Stock) (row : Reservation) (target : ReservationStatus)
    → IsFinal target
    → IsStocked stock (record row { status = target })
final-IsStocked stock row active final = cc
final-IsStocked stock row released final = tt
final-IsStocked stock row expired final = tt
final-IsStocked stock row consumed final = tt

release_target-IsFinal : (reason : Reason) → IsFinal (release_target reason)
release_target-IsFinal reason = ground arith

released-IsValid :
    (order_id : ℕ) (reason : Reason) (w : World) (a : WasActive order_id w)
    → IsValid w
    → IsValid (released_world order_id reason a.row w)
released-IsValid order_id reason w a valid =
    let row = a.row in
    let stock' = restore_all row.restaurant_id row.lines w.stock in
    let final = release_target-IsFinal reason in
    let rows =
      subst (λ s. HasRowsIf s w.stock row.restaurant_id row.lines) a.was_active
        (AllRows-lookup (IsStocked w.stock) order_id row w.reservations valid.stocked a.found) in
    record {
      slots = λ r. ended_slots order_id r (release_target reason) w a final (valid.slots r);
      stocked =
          AllRows-insert (IsStocked stock') order_id (record row { status = release_target reason })
            w.reservations (final-IsStocked stock' row (release_target reason) final)
            (AllRows-map (IsStocked w.stock) (IsStocked stock') w.reservations
              (λ v. IsStocked-same w.stock stock' v (λ key h.
                ground (arith, restore_all-available row.restaurant_id row.lines key w.stock rows)))
              valid.stocked);
    }

committed-IsValid :
    (order_id : ℕ) (w : World) (a : WasActive order_id w)
    → IsValid w
    → IsValid (committed_world order_id a.row w)
committed-IsValid order_id w a valid = record {
  slots = λ r. ended_slots order_id r consumed w a refl (valid.slots r);
  stocked =
      AllRows-insert (IsStocked w.stock) order_id (record a.row { status = consumed })
        w.reservations tt valid.stocked;
}

pub release-IsValid :
    (order_id : ℕ) (reason : Reason) (w : World) → IsValid w → IsValid (release order_id reason w).1
release-IsValid order_id reason w valid = elim (release-cases order_id reason w) [
  | inl (a, done) ↦ rw done (released-IsValid order_id reason w a valid)
  | inr same ↦ rw same valid
]

pub commit-IsValid : (order_id : ℕ) (w : World) → IsValid w → IsValid (commit order_id w).1
commit-IsValid order_id w valid = elim (commit-cases order_id w) [
  | inl (a, done) ↦ rw done (committed-IsValid order_id w a valid)
  | inr same ↦ rw same valid
]

pub expire_each-IsValid :
    (overdue : List ℕ) (w : World) → IsValid w → IsValid (expire_each overdue w).1
unfolding expire_each
expire_each-IsValid [] w valid = valid
expire_each-IsValid (order_id ∷ overdue) w valid =
    expire_each-IsValid overdue (release order_id expired_reason w).1
      (release-IsValid order_id expired_reason w valid)
