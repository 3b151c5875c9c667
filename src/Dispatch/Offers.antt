-- ===== src/Dispatch/Offers.antt =====
-- Who takes an offer: the lock of services/dispatch/dispatch/adapters/rider_store.py, which
-- `accept` converts and `release_offer` revokes, over every interleaving.
use smart_food_ops.Prelude.{
  ℕ, ◌+◌, ◌≡◌, refl, Bool, false, ◌&&◌, List, [], ◌∷◌, arith, nat_eq, nat_beq, if◌then◌else◌,
  Option-cases, inl, inr,
}
use smart_food_ops.Table.{lookup}
use smart_food_ops.Table.Sum.{sum_by, sum_by-update_where, sum_by-insert, sum_by-insert_new}
use smart_food_ops.Dispatch.Store.{
  Riders, is_in, locked_by, set_presence, new_rider, is_reservable, reserved_row, accepted_row,
  unlocked_row, finished_row,
}
use smart_food_ops.Dispatch.Writes.{
  Write, presence, reserves, accepts, releases, finishes, offers, assigns, picks_up, delivers,
  unassigns, cancels_offering, cancels_assigned, Tables, write, run, riders_after,
}

abbrev count : Bool → ℕ
count b = if b then 1 else 0

-- How many locks hold the offer.
abbrev pub locks : ℕ → Riders → ℕ
locks offer_id t = sum_by (λ row. count (locked_by offer_id row)) t

-- The write took the offer: a rider's accept, or a release.
abbrev pub takes : ℕ → Write → Bool
takes offer_id (accepts _ oid _) = nat_beq oid offer_id
takes offer_id (releases _ oid) = nat_beq oid offer_id
takes offer_id _ = false

-- The write makes the offer.
abbrev pub makes : ℕ → Write → Bool
makes offer_id (reserves _ _ oid _) = nat_beq oid offer_id
makes offer_id _ = false

-- How many writes of the run that are such writes succeeded.
unfoldable pub won : (Write → Bool) → ℕ → List Write → Tables → ℕ
won kind cap [] t = 0
won kind cap (op ∷ ops) t =
    count (kind op && (riders_after cap op t.riders).0) + won kind cap ops (write cap op t)

module _ (cap offer_id : ℕ) where
  presence-locks :
      (online : Bool) (rider_id : ℕ) (t : Riders)
      → locks offer_id (set_presence online rider_id t) ≡ locks offer_id t
  presence-locks online rider_id t = elim (Option-cases (lookup rider_id t)) [
    | inl absent ↦ ground (
      arith,
      sum_by-insert_new (λ row. count (locked_by offer_id row)) rider_id (new_rider online) t
          absent,
    )
    | inr (row, found) ↦ ground (
      arith,
      sum_by-insert (λ row. count (locked_by offer_id row)) rider_id
          (record row { online = online }) row t found,
    )
  ]

  write-locks :
      (op : Write) (t : Riders)
      → let (done, t') = riders_after cap op t in
        locks offer_id t' + count (takes offer_id op && done)
        ≡ locks offer_id t + count (makes offer_id op && done)
  write-locks (presence online rider_id) t = omega (arith, presence-locks online rider_id t)
  write-locks (reserves now rider_id oid order_id) t = ground (
    arith,
    sum_by-update_where (λ row. count (locked_by offer_id row)) rider_id (is_reservable cap)
        (reserved_row now oid order_id) t 0 (count (nat_beq oid offer_id))
        (λ row free. ground arith),
  )
  write-locks (accepts rider_id oid order_id) t = ground (
    arith,
    sum_by-update_where (λ row. count (locked_by offer_id row)) rider_id (locked_by oid)
        (accepted_row order_id) t (count (nat_beq oid offer_id)) 0 (λ row locked. ground arith),
  )
  write-locks (releases rider_id oid) t = ground (
    arith,
    sum_by-update_where (λ row. count (locked_by offer_id row)) rider_id (locked_by oid)
        unlocked_row t (count (nat_beq oid offer_id)) 0 (λ row locked. ground arith),
  )
  write-locks (finishes rider_id order_id) t = ground (
    arith,
    sum_by-update_where (λ row. count (locked_by offer_id row)) rider_id
        (λ row. is_in order_id row.active_deliveries) (finished_row order_id) t 0 0
        (λ row active. refl),
  )
  write-locks (offers now order_id rider_id oid input) t = refl
  write-locks (assigns now order_id oid) t = refl
  write-locks (picks_up now order_id rider_id) t = refl
  write-locks (delivers now order_id rider_id) t = refl
  write-locks (unassigns now order_id rider_id) t = refl
  write-locks (cancels_offering now order_id) t = refl
  write-locks (cancels_assigned now order_id) t = refl

  -- Whatever the interleaving: the accepts and the releases of an offer that succeed, with the
  -- locks that hold it after, are as many as the reserves that made it with the locks that held it
  -- before. An offer that was made once is so taken at most once: an accept and a timer's release
  -- never both succeed.
  pub offer_taken_once :
      (ops : List Write) (t : Tables)
      → won (takes offer_id) cap ops t + locks offer_id (run cap ops t).riders
        ≡ won (makes offer_id) cap ops t + locks offer_id t.riders
  unfolding won run
  offer_taken_once [] t = refl
  offer_taken_once (op ∷ ops) t =
      omega (arith, offer_taken_once ops (write cap op t), write-locks op t.riders)
