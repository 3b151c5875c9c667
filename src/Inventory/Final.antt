-- ===== src/Inventory/Final.antt =====
-- Retries: a reservation is made once and ended once.
use smart_food_ops.Prelude.{ℕ, ◌≡◌, true, false, nat_eq, Option, some, arith, inl, inr, refl, List}
use smart_food_ops.Table.{lookup, lookup-insert_self}
use smart_food_ops.Inventory.Rows.{
  Reservation, ReservationLine, World, Reason, ReservationStatus, is_active,
}
use smart_food_ops.Inventory.Service.{Config, reserve, reserved, release, commit, release_target}
use smart_food_ops.Inventory.Cases.{
  new_row, reserve-cases, release-cases, commit-cases, released_world, committed_world,
}

reserve_existing :
    (cfg : Config) (now order_id restaurant_id : ℕ) (lines : List ReservationLine) (ttl : Option ℕ)
    (row : Reservation) (w : World)
    → lookup order_id w.reservations ≡ some row
    → reserve cfg now order_id restaurant_id lines ttl w ≡ (reserved row false, w)
unfolding reserve
reserve_existing cfg now order_id restaurant_id lines ttl row w found = ground arith

-- Once an order has a reservation, reserving it again, whatever it asks for, returns that
-- reservation as not created and changes nothing.
pub reserve_again :
    (cfg : Config) (now order_id restaurant_id : ℕ) (lines : List ReservationLine) (ttl : Option ℕ)
    (row : Reservation) (w : World) (later r : ℕ) (other_lines : List ReservationLine)
    (other_ttl : Option ℕ)
    → (reserve cfg now order_id restaurant_id lines ttl w).0 ≡ reserved row true
    → let w' = (reserve cfg now order_id restaurant_id lines ttl w).1 in
      reserve cfg later order_id r other_lines other_ttl w' ≡ (reserved row false, w')
reserve_again cfg now order_id restaurant_id lines ttl row w later r other_lines other_ttl h =
    elim (reserve-cases cfg now order_id restaurant_id lines ttl w) [
      | inr (same, refused) ↦ absurd (ground (arith, refused, h))
      | inl c ↦
          reserve_existing cfg later order_id r other_lines other_ttl row
            (reserve cfg now order_id restaurant_id lines ttl w).1
            (ground (
              arith,
              c.done,
              h,
              lookup-insert_self order_id (new_row cfg now order_id restaurant_id lines ttl w)
                  w.reservations,
            ))
    ]

ended_again :
    (order_id : ℕ) (row : Reservation) (w : World) (reason : Reason)
    → lookup order_id w.reservations ≡ some row
    → is_active row.status ≡ false
    → (release order_id reason w ≡ (false, w)) × (commit order_id w ≡ (false, w))
unfolding release commit
ended_again order_id row w reason found ended = ground arith

-- After a release that took effect, no release and no commit of that order takes effect or
-- changes anything.
pub released_for_good :
    (order_id : ℕ) (reason other : Reason) (w : World)
    → (release order_id reason w).0 ≡ true
    → let w' = (release order_id reason w).1 in
      (release order_id other w' ≡ (false, w')) × (commit order_id w' ≡ (false, w'))
released_for_good order_id reason other w h = elim (release-cases order_id reason w) [
  | inr same ↦ ground arith
  | inl (a, done) ↦ rw done (
      ended_again order_id (record a.row { status = release_target reason })
        (released_world order_id reason a.row w) other
        (lookup-insert_self order_id (record a.row { status = release_target reason })
          w.reservations)
        (ground arith))
]

-- After a commit that took effect, no release and no commit of that order takes effect or changes
-- anything: sold stock never goes back to the shelf.
pub committed_for_good :
    (order_id : ℕ) (other : Reason) (w : World)
    → (commit order_id w).0 ≡ true
    → let w' = (commit order_id w).1 in
      (release order_id other w' ≡ (false, w')) × (commit order_id w' ≡ (false, w'))
committed_for_good order_id other w h = elim (commit-cases order_id w) [
  | inr same ↦ ground arith
  | inl (a, done) ↦ rw done (
      ended_again order_id (record a.row { status = ReservationStatus.consumed })
        (committed_world order_id a.row w) other
        (lookup-insert_self order_id (record a.row { status = ReservationStatus.consumed })
          w.reservations)
        refl)
]
