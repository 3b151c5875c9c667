-- ===== src/Dispatch/Accept.antt =====
-- An offer, accepted or expired, and the cancel: the races of
-- services/dispatch/dispatch/domain/service.py.
use smart_food_ops.Prelude.{
  ℕ, List, [], ◌∷◌, ◌≡◌, refl, ap, ◌∙◌, true, none, some, arith, nat_eq, nat_beq_iff, nat_beq_refl,
  if◌then◌else◌,
}
use smart_food_ops.Table.{lookup, insert, lookup-insert_self}
use smart_food_ops.Dispatch.Rows.{offering, assigned, Rider, Delivery, World}
use smart_food_ops.Dispatch.Store.{
  locked_by, accepted_row, unlocked_row, is_in, insert_sorted, stamp,
}
use smart_food_ops.Dispatch.Service.{Env, expire_offer, revoked, already_assigned}
use smart_food_ops.Dispatch.Taps.{accept_offer, taken, expired, accept_unavailable}
use smart_food_ops.Dispatch.Writes.{Tables}
use smart_food_ops.Dispatch.Calls.{tables_of}

-- The rider's lock holds the offer, and the order's row is in the offer.
pub record IsOffered (rider_id offer_id order_id : ℕ) (t : Tables) : Type 0 where
  pub rider : Rider
  pub delivery : Delivery
  pub rider_found : lookup rider_id t.riders ≡ some rider
  pub locked : locked_by offer_id rider ≡ true
  pub delivery_found : lookup order_id t.deliveries ≡ some delivery
  pub in_offer : delivery.state ≡ offering
  pub of_offer : delivery.offer_id ≡ offer_id
  pub of_rider : delivery.rider_id ≡ rider_id

-- The rider has the order and no lock, and the row is the rider's under the offer.
pub record IsAssigned (rider_id offer_id order_id : ℕ) (t : Tables) : Type 0 where
  pub rider : Rider
  pub delivery : Delivery
  pub rider_found : lookup rider_id t.riders ≡ some rider
  pub unlocked : rider.offer_lock ≡ none
  pub active : is_in order_id rider.active_deliveries ≡ true
  pub delivery_found : lookup order_id t.deliveries ≡ some delivery
  pub assigned_state : delivery.state ≡ assigned
  pub of_offer : delivery.offer_id ≡ offer_id
  pub of_rider : delivery.rider_id ≡ rider_id

is_in-insert_sorted : (n : ℕ) (set : List ℕ) → is_in n (insert_sorted n set) ≡ true
unfolding is_in insert_sorted
is_in-insert_sorted n [] = ground (arith, nat_beq_refl n)
is_in-insert_sorted n (m ∷ rest) = ground (arith, nat_beq_refl n, is_in-insert_sorted n rest)

module _ (rider_id offer_id order_id : ℕ) where
  accept_offer-riders :
      (env : Env) (w : World) (o : IsOffered rider_id offer_id order_id (tables_of w))
      → (accept_offer env rider_id offer_id order_id w).1.riders
        ≡ insert rider_id (accepted_row order_id o.rider) w.riders
  unfolding accept_offer
  accept_offer-riders env w o = ground (arith, o.rider_found, o.locked)

  accept_offer-deliveries :
      (env : Env) (w : World) (o : IsOffered rider_id offer_id order_id (tables_of w))
      → (accept_offer env rider_id offer_id order_id w).1.deliveries
        ≡ insert order_id
            (record o.delivery {
              state = assigned;
              stamps = stamp assigned env.now o.delivery.stamps;
            })
            w.deliveries
  unfolding accept_offer
  accept_offer-deliveries env w o = ground (
    arith,
    o.rider_found,
    o.locked,
    o.delivery_found,
    o.in_offer,
    nat_beq_iff o.delivery.offer_id offer_id,
    o.of_offer,
  )

  accept_offer-answer :
      (env : Env) (w : World) (o : IsOffered rider_id offer_id order_id (tables_of w))
      → (accept_offer env rider_id offer_id order_id w).0
        ≡ (if env.order_up then taken else accept_unavailable)
  unfolding accept_offer
  accept_offer-answer env w o = ground (arith, o.rider_found, o.locked)

  added_active : (row : Rider) → is_in order_id (accepted_row order_id row).active_deliveries ≡ true
  added_active row = ground (arith, is_in-insert_sorted order_id row.active_deliveries)

  accept_offer-IsAssigned :
      (env : Env) (w : World)
      → IsOffered rider_id offer_id order_id (tables_of w)
      → let (answer, w') = accept_offer env rider_id offer_id order_id w in
        IsAssigned rider_id offer_id order_id (tables_of w')
        × (answer ≡ (if env.order_up then taken else accept_unavailable))
  accept_offer-IsAssigned env w o = (
    record {
      rider = accepted_row order_id o.rider;
      delivery = record o.delivery {
        state = assigned;
        stamps = stamp assigned env.now o.delivery.stamps;
      };
      rider_found =
          ap (lookup rider_id) (accept_offer-riders env w o)
          ∙ lookup-insert_self rider_id (accepted_row order_id o.rider) w.riders;
      unlocked = refl;
      active = added_active o.rider;
      delivery_found =
          ap (lookup order_id) (accept_offer-deliveries env w o)
          ∙ lookup-insert_self order_id _ w.deliveries;
      assigned_state = refl;
      of_offer = o.of_offer;
      of_rider = o.of_rider;
    },
    accept_offer-answer env w o,
  )

  accept_offer_again :
      (env : Env) (w : World)
      → IsAssigned rider_id offer_id order_id (tables_of w)
      → let (answer, w') = accept_offer env rider_id offer_id order_id w in
        (tables_of w' ≡ tables_of w)
        × (answer ≡ (if env.order_up then taken else accept_unavailable))
  unfolding accept_offer
  accept_offer_again env w a = (
    ground (arith, a.rider_found, a.unlocked),
    ground (
      arith,
      a.rider_found,
      a.unlocked,
      a.delivery_found,
      a.assigned_state,
      a.of_offer,
      a.of_rider,
      nat_beq_refl rider_id,
      nat_beq_refl offer_id,
    ),
  )

  expire_after_accept :
      (env : Env) (w : World)
      → IsAssigned rider_id offer_id order_id (tables_of w)
      → let (answer, w') = expire_offer env order_id offer_id rider_id w in
        (tables_of w' ≡ tables_of w) × (answer ≡ already_assigned rider_id)
  unfolding expire_offer
  expire_after_accept env w a = (
    ground (arith, a.rider_found, a.unlocked),
    ground (arith, a.rider_found, a.unlocked, a.delivery_found, a.assigned_state, a.of_rider),
  )

  -- A rider who accepts the offer that the lock and the row hold has the order, without a lock, and
  -- the row is assigned to the rider under the offer; the answer is `assigned`, or the 503 when the
  -- order service does not answer. A retry of the accept then changes no table and answers
  -- `assigned` when the order service does; and the timer's late expire of the offer changes no
  -- table and answers with the rider who has it.
  pub accept_settles :
      (env env' : Env) (w : World)
      → IsOffered rider_id offer_id order_id (tables_of w)
      → let (answer, w') = accept_offer env rider_id offer_id order_id w in
        let (again, w'') = accept_offer env' rider_id offer_id order_id w' in
        let (late, w''') = expire_offer env' order_id offer_id rider_id w' in
        IsAssigned rider_id offer_id order_id (tables_of w')
        × (answer ≡ (if env.order_up then taken else accept_unavailable))
        × (tables_of w'' ≡ tables_of w')
        × (again ≡ (if env'.order_up then taken else accept_unavailable))
        × (tables_of w''' ≡ tables_of w')
        × (late ≡ already_assigned rider_id)
  accept_settles env env' w offered =
      let w' = (accept_offer env rider_id offer_id order_id w).1 in
      let (assigned_now, answer) = accept_offer-IsAssigned env w offered in
      let (same, again) = accept_offer_again env' w' assigned_now in
      let (kept, late) = expire_after_accept env' w' assigned_now in
      (assigned_now, answer, same, again, kept, late)

  expire_offer-riders :
      (env : Env) (w : World) (o : IsOffered rider_id offer_id order_id (tables_of w))
      → (expire_offer env order_id offer_id rider_id w).1.riders
        ≡ insert rider_id (unlocked_row o.rider) w.riders
  unfolding expire_offer
  expire_offer-riders env w o = ground (arith, o.rider_found, o.locked)

  expire_offer-deliveries :
      (env : Env) (w : World)
      → (expire_offer env order_id offer_id rider_id w).1.deliveries ≡ w.deliveries
  unfolding expire_offer
  expire_offer-deliveries env w = ground arith

  expire_offer-answer :
      (env : Env) (w : World) (o : IsOffered rider_id offer_id order_id (tables_of w))
      → (expire_offer env order_id offer_id rider_id w).0 ≡ revoked
  unfolding expire_offer
  expire_offer-answer env w o = ground (arith, o.rider_found, o.locked)

  accept_refused :
      (env : Env) (w : World) (row : Rider) (d : Delivery)
      → lookup rider_id w.riders ≡ some row
      → row.offer_lock ≡ none
      → lookup order_id w.deliveries ≡ some d
      → d.state ≡ offering
      → accept_offer env rider_id offer_id order_id w ≡ (expired, w)
  unfolding accept_offer
  accept_refused env w row d found unlocked row_found in_offer = ground arith

  -- An offer that the timer expired while the lock and the row held it answers `revoked`, and the
  -- rider's later accept answers `expired` and changes nothing.
  pub accept_after_expire :
      (env env' : Env) (w : World)
      → IsOffered rider_id offer_id order_id (tables_of w)
      → let (answer, w') = expire_offer env order_id offer_id rider_id w in
        (answer ≡ revoked) × (accept_offer env' rider_id offer_id order_id w' ≡ (expired, w'))
  accept_after_expire env env' w o = (
    expire_offer-answer env w o,
    accept_refused env' (expire_offer env order_id offer_id rider_id w).1 (unlocked_row o.rider)
        o.delivery
        (ap (lookup rider_id) (expire_offer-riders env w o)
          ∙ lookup-insert_self rider_id (unlocked_row o.rider) w.riders)
        refl (ap (lookup order_id) (expire_offer-deliveries env w) ∙ o.delivery_found) o.in_offer,
  )
