-- ===== src/Inventory/Conserve.antt =====
-- Stock is conserved: what is not on the shelf is held by an active reservation.
use smart_food_ops.Prelude.{
  ℕ, ◌+◌, ◌-◌, ◌≡◌, refl, Bool, true, false, nat_beq, List, nat_eq, pair_eq, if◌then◌else◌, Option,
  none, some, arith, subst, inl, inr,
}
use smart_food_ops.Table.{lookup, lookup-insert_self}
use smart_food_ops.Table.Rows.{AllRows-lookup}
use smart_food_ops.Table.Sum.{sum_by-insert, sum_by-insert_new}
use smart_food_ops.Inventory.Rows.{
  ReservationStatus, is_active, Reservation, ReservationLine, World, Reason,
}
use smart_food_ops.Inventory.Service.{
  Config, reserve, release, commit, release_target, ensure_load_row,
}
use smart_food_ops.Inventory.Stock.{decrement_all-available, restore_all-available, HasRows, asked}
use smart_food_ops.Inventory.Slots.{occupy_slot-used, ensure-used, free_slot-used}
use smart_food_ops.Inventory.Cases.{
  new_row, reserve-cases, release-cases, commit-cases, WasActive, released_world, is_created,
}
use smart_food_ops.Inventory.Valid.{
  IsValid, IsStocked, HasRowsIf, held, held_by, available, used_of, live_at,
}

abbrev pub held_of : ℕ → ℕ × ℕ → World → ℕ
held_of order_id key w = elim (lookup order_id w.reservations) [
  | none ↦ 0
  | some row ↦ held_by key row
]

rows_of_active :
    (order_id : ℕ) (w : World) (a : WasActive order_id w)
    → IsValid w
    → HasRows w.stock a.row.restaurant_id a.row.lines
rows_of_active order_id w a valid =
    subst (λ s. HasRowsIf s w.stock a.row.restaurant_id a.row.lines) a.was_active
      (AllRows-lookup (IsStocked w.stock) order_id a.row w.reservations valid.stocked a.found)

-- Whether a reservation of the id is active, and the slot that it then has.
abbrev pub is_live : Option Reservation → Bool
is_live none = false
is_live (some row) = is_active row.status

abbrev pub slot_of : ℕ → ℕ → World → ℕ
slot_of order_id r w = elim (lookup order_id w.reservations) [ none ↦ 0 | some row ↦ live_at r row ]

abbrev pub used : ℕ → World → ℕ
used r w = used_of (lookup r w.loads)

-- By whether the call created a reservation: what it does to the shelf, to what is held, to the
-- counter of any restaurant `r` and to the row of the order.
abbrev pub Reserves :
    Bool → ℕ → ℕ → List ReservationLine → (key : ℕ × ℕ) (r : ℕ) → World → World → Type 0
Reserves false order_id restaurant_id lines key r w w' = w' ≡ w
Reserves true order_id restaurant_id lines key r w w' =
    (available key w' + asked restaurant_id lines key ≡ available key w)
    × (held key w' ≡ held key w + asked restaurant_id lines key)
    × (used r w' ≡ used r w + (if nat_beq restaurant_id r then 1 else 0))
    × (is_live (lookup order_id w.reservations) ≡ false)
    × (is_live (lookup order_id w'.reservations) ≡ true)

-- A reservation that `reserve` creates takes just what its lines ask for from the shelf, holds just
-- that, takes one slot of its restaurant and no other, and is active then and was not before; every
-- other answer leaves the world as it was.
pub reserve_conserves :
    (cfg : Config) (now order_id restaurant_id : ℕ) (lines : List ReservationLine) (ttl : Option ℕ)
    (key : ℕ × ℕ) (r : ℕ) (w : World)
    → let (answer, w') = reserve cfg now order_id restaurant_id lines ttl w in
      Reserves (is_created answer) order_id restaurant_id lines key r w w'
reserve_conserves cfg now order_id restaurant_id lines ttl key r w =
    elim (reserve-cases cfg now order_id restaurant_id lines ttl w) [
      | inr (same, refused) ↦ rw refused same
      | inl c ↦
          let row = new_row cfg now order_id restaurant_id lines ttl w in
          let taken =
            decrement_all-available restaurant_id lines key w.stock c.stock c.decremented in
          let holds = sum_by-insert_new (held_by key) order_id row w.reservations c.was_new in
          let ensured = ensure_load_row cfg restaurant_id w.loads in
          rw c.done (
            taken.0,
            ground (arith, holds),
            ground (
              arith,
              occupy_slot-used restaurant_id r ensured c.had_slot,
              ensure-used cfg restaurant_id r w.loads,
            ),
            ground (arith, c.was_new),
            ground (arith, lookup-insert_self order_id row w.reservations),
          )
    ]

-- By whether the call ended a reservation: the same, of a release.
abbrev pub Releases : Bool → ℕ → (key : ℕ × ℕ) (r : ℕ) → World → World → Type 0
Releases false order_id key r w w' = w' ≡ w
Releases true order_id key r w w' =
    (available key w' ≡ available key w + held_of order_id key w)
    × (held key w' + held_of order_id key w ≡ held key w)
    × (used r w' ≡ used r w - slot_of order_id r w)
    × (is_live (lookup order_id w'.reservations) ≡ false)

release-is_live :
    (order_id : ℕ) (reason : Reason) (w : World)
    → (release order_id reason w).0 ≡ is_live (lookup order_id w.reservations)
unfolding release
release-is_live order_id reason w = ground arith

target_ended : (reason : Reason) → is_active (release_target reason) ≡ false
target_ended reason = ground arith

ended-Releases :
    (order_id : ℕ) (reason : Reason) (key : ℕ × ℕ) (r : ℕ) (w : World)
    → IsValid w
    → (a : WasActive order_id w)
    → Releases true order_id key r w (released_world order_id reason a.row w)
ended-Releases order_id reason key r w valid a =
    let ended = record a.row { status = release_target reason } in
    let restored =
      restore_all-available a.row.restaurant_id a.row.lines key w.stock
        (rows_of_active order_id w a valid) in
    let sum = sum_by-insert (held_by key) order_id ended a.row w.reservations a.found in
    (
      ground (arith, restored, a.found, a.was_active),
      ground (arith, sum, a.found, a.was_active, target_ended reason),
      ground (arith, free_slot-used a.row.restaurant_id r w.loads, a.found, a.was_active),
      ground (arith, lookup-insert_self order_id ended w.reservations, target_ended reason),
    )

-- In a valid world a release answers whether the order has an active reservation. If so, it puts
-- back on the shelf just what the reservation held, which is then held no longer, frees the one slot
-- that it had and no other, and leaves it ended; if not, it leaves the world as it was.
pub release_conserves :
    (order_id : ℕ) (reason : Reason) (key : ℕ × ℕ) (r : ℕ) (w : World)
    → IsValid w
    → let (done, w') = release order_id reason w in
      (done ≡ is_live (lookup order_id w.reservations)) × Releases done order_id key r w w'
release_conserves order_id reason key r w valid = (
  release-is_live order_id reason w,
  elim (release-cases order_id reason w) [
    | inr same ↦ rw same refl
    | inl (a, done) ↦ rw done (ended-Releases order_id reason key r w valid a)
  ],
)

-- A commit takes what the reservation held out of the sum, once.
pub commit_consumes :
    (order_id : ℕ) (key : ℕ × ℕ) (w : World)
    → let (done, w') = commit order_id w in
      available key w' + held key w' + (if done then held_of order_id key w else 0)
      ≡ available key w + held key w
commit_consumes order_id key w = elim (commit-cases order_id w) [
  | inr same ↦ rw same (omega arith)
  | inl (a, done) ↦ rw done (
      ground (
        arith,
        a.found,
        a.was_active,
        sum_by-insert (held_by key) order_id (record a.row { status = ReservationStatus.consumed })
            a.row w.reservations a.found,
      ))
]
