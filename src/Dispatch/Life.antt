-- ===== src/Dispatch/Life.antt =====
-- The life of a delivery row: the conditional writes of `DeliveryStore` in
-- services/dispatch/dispatch/adapters/rider_store.py, over every interleaving.
use smart_food_ops.Prelude.{
  ℕ, ◌≡◌, refl, sym, subst, Bool, true, false, Option, none, some, List, [], ◌∷◌, arith, nat_eq,
  nat_beq, Option-cases, Bool-cases, inl, inr,
}
use smart_food_ops.Table.{lookup, insert, lookup-update_where}
use smart_food_ops.Dispatch.Rows.{
  DeliveryState, offering, assigned, picked_up, delivered, cancelled, state_beq, Delivery,
  OfferInput,
}
use smart_food_ops.Dispatch.Store.{
  Deliveries, guards, stamp, transition, put_offering, offering_row, no_stamps,
}
use smart_food_ops.Dispatch.Writes.{
  Write, presence, reserves, accepts, releases, finishes, offers, assigns, picks_up, delivers,
  unassigns, cancels_offering, cancels_assigned, Tables, write, run, deliveries_after,
}
use smart_food_ops.Dispatch.Follows.{
  Follows, Later, Later-refl, Later-trans, updated-Later, at_key-Later, insert-Later,
}

-- The pairs of states that a write moves between.
abbrev moves : DeliveryState → DeliveryState → Bool
moves offering target = true
moves assigned target = true
moves picked_up delivered = true
moves _ _ = false

moved_row : ℕ → DeliveryState → Delivery → Delivery
moved_row now target row = record row { state = target; stamps = stamp target now row.stamps }

moved-Follows :
    (now : ℕ) (expected target : DeliveryState) (offer rider : Option ℕ) (d : Delivery)
    → moves expected target ≡ true
    → guards expected offer rider d ≡ true
    → Follows d (moved_row now target d)
unfolding moved_row
moved-Follows now expected target offer rider d legal met = record {
  carried = λ h. ground arith;
  ended = λ h. ground arith;
}

transition-Later :
    (now order_id : ℕ) (expected target : DeliveryState) (offer rider : Option ℕ) (t : Deliveries)
    (o : ℕ)
    → moves expected target ≡ true
    → Later (lookup o t) (lookup o (transition now order_id expected target offer rider t).1)
unfolding moved_row
transition-Later now order_id expected target offer rider t o legal =
    subst (Later (lookup o t))
      (sym (lookup-update_where order_id o (guards expected offer rider) (moved_row now target) t))
      (at_key-Later (nat_beq order_id o) (lookup o t) _ (
        updated-Later (guards expected offer rider) (moved_row now target) (lookup o t)
          (λ d met. moved-Follows now expected target offer rider d legal met)))

offered-Follows : (d : Delivery) (d' : Delivery) → state_beq d.state offering ≡ true → Follows d d'
offered-Follows d d' h = record { carried = λ h'. ground arith; ended = λ h'. ground arith }

module _ (now order_id rider_id offer_id : ℕ) (input : OfferInput) (t : Deliveries) where
  put_offering_new :
      lookup order_id t ≡ none
      → put_offering now order_id rider_id offer_id input t
        ≡ (true, insert order_id (offering_row now rider_id offer_id input no_stamps) t)
  put_offering_new absent = ground arith

  put_offering_over :
      (row : Delivery)
      → lookup order_id t ≡ some row
      → state_beq row.state offering ≡ true
      → put_offering now order_id rider_id offer_id input t
        ≡ (true, insert order_id (offering_row now rider_id offer_id input row.stamps) t)
  put_offering_over row found free = ground arith

  put_offering_refused :
      (row : Delivery)
      → lookup order_id t ≡ some row
      → state_beq row.state offering ≡ false
      → put_offering now order_id rider_id offer_id input t ≡ (false, t)
  put_offering_refused row found held = ground arith

put_offering-Later :
    (now order_id rider_id offer_id : ℕ) (input : OfferInput) (t : Deliveries) (o : ℕ)
    → Later (lookup o t) (lookup o (put_offering now order_id rider_id offer_id input t).1)
put_offering-Later now order_id rider_id offer_id input t o =
    elim (Option-cases (lookup order_id t)) [
      | inl absent ↦
          subst (λ r. Later (lookup o t) (lookup o r.1))
            (sym (put_offering_new now order_id rider_id offer_id input t absent))
            (insert-Later order_id o (offering_row now rider_id offer_id input no_stamps) t (
              subst
                (λ before. Later before (some (offering_row now rider_id offer_id input no_stamps)))
                (sym absent) tt))
      | inr (row, found) ↦ elim (Bool-cases (state_beq row.state offering)) [
        | inl free ↦
            subst (λ r. Later (lookup o t) (lookup o r.1))
              (sym (put_offering_over now order_id rider_id offer_id input t row found free))
              (insert-Later order_id o (offering_row now rider_id offer_id input row.stamps) t (
                subst
                  (λ before.
                    Later before (some (offering_row now rider_id offer_id input row.stamps)))
                  (sym found) (_, refl, offered-Follows row _ free)))
        | inr held ↦
            subst (λ r. Later (lookup o t) (lookup o r.1))
              (sym (put_offering_refused now order_id rider_id offer_id input t row found held))
              (Later-refl (lookup o t))
      ]
    ]

write-Later :
    (op : Write) (t : Deliveries) (o : ℕ) → Later (lookup o t) (lookup o (deliveries_after op t).1)
write-Later (presence online rider_id) t o = Later-refl (lookup o t)
write-Later (reserves now rider_id offer_id order_id) t o = Later-refl (lookup o t)
write-Later (accepts rider_id offer_id order_id) t o = Later-refl (lookup o t)
write-Later (releases rider_id offer_id) t o = Later-refl (lookup o t)
write-Later (finishes rider_id order_id) t o = Later-refl (lookup o t)
write-Later (offers now order_id rider_id offer_id input) t o =
    put_offering-Later now order_id rider_id offer_id input t o
write-Later (assigns now order_id offer_id) t o =
    transition-Later now order_id offering assigned (some offer_id) none t o refl
write-Later (picks_up now order_id rider_id) t o =
    transition-Later now order_id assigned picked_up none (some rider_id) t o refl
write-Later (delivers now order_id rider_id) t o =
    transition-Later now order_id picked_up delivered none (some rider_id) t o refl
write-Later (unassigns now order_id rider_id) t o =
    transition-Later now order_id assigned offering none (some rider_id) t o refl
write-Later (cancels_offering now order_id) t o =
    transition-Later now order_id offering cancelled none none t o refl
write-Later (cancels_assigned now order_id) t o =
    transition-Later now order_id assigned cancelled none none t o refl

run-Later :
    (cap : ℕ) (ops : List Write) (t : Tables) (o : ℕ)
    → Later (lookup o t.deliveries) (lookup o (run cap ops t).deliveries)
unfolding run
run-Later cap [] t o = Later-refl (lookup o t.deliveries)
run-Later cap (op ∷ ops) t o =
    Later-trans (lookup o t.deliveries) (lookup o (write cap op t).deliveries) _
      (write-Later op t.deliveries o) (run-Later cap ops (write cap op t) o)

-- Whatever the interleaving of the writes of any calls, a delivery row is never lost; once the food
-- is picked up the delivery stays with its courier and its offer and is picked up or delivered; and
-- a delivered or cancelled row is never written again.
pub delivery-Follows :
    (cap : ℕ) (ops : List Write) (t : Tables) (order_id : ℕ) (d : Delivery)
    → lookup order_id t.deliveries ≡ some d
    → (d' : Delivery) × (lookup order_id (run cap ops t).deliveries ≡ some d') × Follows d d'
delivery-Follows cap ops t order_id d found =
    subst (λ before. Later before (lookup order_id (run cap ops t).deliveries)) found
      (run-Later cap ops t order_id)
