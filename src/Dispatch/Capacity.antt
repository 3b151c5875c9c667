-- ===== src/Dispatch/Capacity.antt =====
-- How many orders a rider may work at once: the guard of `reserve` in
-- services/dispatch/dispatch/adapters/rider_store.py, over every interleaving.
use smart_food_ops.Prelude.{
  ℕ, ◌+◌, ◌≤◌, ◌≡◌, Bool, true, List, [], ◌∷◌, length, arith, nat_eq, if◌then◌else◌, Option-cases,
  inl, inr,
}
use smart_food_ops.Table.{lookup}
use smart_food_ops.Table.Rows.{AllRows, AllRows-lookup, AllRows-insert, AllRows-update_where}
use smart_food_ops.Dispatch.Rows.{Rider}
use smart_food_ops.Dispatch.Store.{
  Riders, is_locked, insert_sorted, add_to_set, delete_from_set, set_presence, new_rider,
  is_reservable, locked_by, accepted_row, unlocked_row, finished_row, reserved_row,
}
use smart_food_ops.Dispatch.Writes.{
  Write, presence, reserves, accepts, releases, finishes, offers, assigns, picks_up, delivers,
  unassigns, cancels_offering, cancels_assigned, Tables, write, run, riders_after,
}

-- The orders that a rider works, and one that the lock may bring.
abbrev pub load_of : Rider → ℕ
load_of row = length row.active_deliveries + (if is_locked row then 1 else 0)

abbrev pub Fits : ℕ → Rider → Type 0
Fits cap row = load_of row ≤ cap

length-delete_from_set : (n : ℕ) (set : List ℕ) → length (delete_from_set n set) ≤ length set
unfolding delete_from_set
length-delete_from_set n [] = omega arith
length-delete_from_set n (m ∷ rest) = ground (arith, length-delete_from_set n rest)

length-insert_sorted : (n : ℕ) (set : List ℕ) → length (insert_sorted n set) ≡ length set + 1
unfolding insert_sorted
length-insert_sorted n [] = omega arith
length-insert_sorted n (m ∷ rest) = ground (arith, length-insert_sorted n rest)

length-add_to_set : (n : ℕ) (set : List ℕ) → length (add_to_set n set) ≤ length set + 1
length-add_to_set n set = ground (arith, length-insert_sorted n set)

module _ (cap : ℕ) where
  reserved-Fits :
      (now offer_id order_id : ℕ) (row : Rider)
      → is_reservable cap row ≡ true
      → Fits cap (reserved_row now offer_id order_id row)
  reserved-Fits now offer_id order_id row free = ground arith

  accepted-Fits :
      (offer_id order_id : ℕ) (row : Rider)
      → Fits cap row
      → locked_by offer_id row ≡ true
      → Fits cap (accepted_row order_id row)
  accepted-Fits offer_id order_id row fits locked =
      ground (arith, length-add_to_set order_id row.active_deliveries)

  unlocked-Fits : (row : Rider) → Fits cap row → Fits cap (unlocked_row row)
  unlocked-Fits row fits = ground arith

  finished-Fits : (order_id : ℕ) (row : Rider) → Fits cap row → Fits cap (finished_row order_id row)
  finished-Fits order_id row fits =
      ground (arith, length-delete_from_set order_id row.active_deliveries)

  presence-Fits :
      (online : Bool) (rider_id : ℕ) (t : Riders)
      → AllRows (Fits cap) t
      → AllRows (Fits cap) (set_presence online rider_id t)
  presence-Fits online rider_id t h = elim (Option-cases (lookup rider_id t)) [
    | inl absent ↦
        rw (AllRows, absent)
          (AllRows-insert (Fits cap) rider_id (new_rider online) t (omega arith) h)
    | inr (row, found) ↦
        rw (AllRows, found)
          (AllRows-insert (Fits cap) rider_id (record row { online = online }) t
            (AllRows-lookup (Fits cap) rider_id row t h found) h)
  ]

  write-Fits :
      (op : Write) (t : Riders)
      → AllRows (Fits cap) t
      → AllRows (Fits cap) (riders_after cap op t).1
  write-Fits (presence online rider_id) t h = presence-Fits online rider_id t h
  write-Fits (reserves now rider_id offer_id order_id) t h =
      AllRows-update_where (Fits cap) rider_id _ _ t
        (λ row _ free. reserved-Fits now offer_id order_id row free) h
  write-Fits (accepts rider_id offer_id order_id) t h =
      AllRows-update_where (Fits cap) rider_id _ _ t (accepted-Fits offer_id order_id) h
  write-Fits (releases rider_id offer_id) t h =
      AllRows-update_where (Fits cap) rider_id _ _ t (λ row fits _. unlocked-Fits row fits) h
  write-Fits (finishes rider_id order_id) t h =
      AllRows-update_where (Fits cap) rider_id _ _ t (λ row fits _. finished-Fits order_id row fits)
        h
  write-Fits (offers now order_id rider_id offer_id input) t h = h
  write-Fits (assigns now order_id offer_id) t h = h
  write-Fits (picks_up now order_id rider_id) t h = h
  write-Fits (delivers now order_id rider_id) t h = h
  write-Fits (unassigns now order_id rider_id) t h = h
  write-Fits (cancels_offering now order_id) t h = h
  write-Fits (cancels_assigned now order_id) t h = h

  -- Whatever the interleaving of the conditional writes of any calls: from riders that each have no
  -- more orders than the cap, the lock's one counted, no rider ever has more.
  pub run-Fits :
      (ops : List Write) (t : Tables)
      → AllRows (Fits cap) t.riders
      → AllRows (Fits cap) (run cap ops t).riders
  unfolding run
  run-Fits [] t h = h
  run-Fits (op ∷ ops) t h = run-Fits ops (write cap op t) (write-Fits op t.riders h)
