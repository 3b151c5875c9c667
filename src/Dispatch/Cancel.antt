-- ===== src/Dispatch/Cancel.antt =====
-- `cancel` of services/dispatch/dispatch/domain/service.py: no rider stays held by a dead order.
use smart_food_ops.Prelude.{
  ℕ, ◌≡◌, refl, ap, ◌∙◌, Bool, true, false, ◌||◌, some, List, [], ◌∷◌, arith, nat_eq, if◌then◌else◌,
}
use smart_food_ops.Table.{lookup, updated, lookup-update_where_self, insert, lookup-insert_self}
use smart_food_ops.Dispatch.Rows.{offering, assigned, cancelled, state_beq, Rider, Delivery, World}
use smart_food_ops.Dispatch.Store
use smart_food_ops.Dispatch.Store.{
  locked_by, unlocked_row, finished_row, is_in, delete_from_set, stamp,
}
use smart_food_ops.Dispatch.Service.{Env, cancel, freed}

pub is_in-delete_from_set : (n : ℕ) (set : List ℕ) → is_in n (delete_from_set n set) ≡ false
unfolding is_in delete_from_set
is_in-delete_from_set n [] = refl
is_in-delete_from_set n (m ∷ rest) = ground (arith, is_in-delete_from_set n rest)

-- The row of a rider, freed from the order and its offer.
abbrev freed_rider : ℕ → ℕ → Rider → Rider
freed_rider order_id offer_id row =
    let unlocked = if locked_by offer_id row then unlocked_row row else row in
    if is_in order_id unlocked.active_deliveries then finished_row order_id unlocked else unlocked

module _ (env : Env) (order_id : ℕ) (w : World) (d : Delivery) where
  cancel-deliveries :
      lookup order_id w.deliveries ≡ some d
      → state_beq d.state offering || state_beq d.state assigned ≡ true
      → (cancel env order_id w).1.deliveries
        ≡ insert order_id
            (record d { state = cancelled; stamps = stamp cancelled env.now d.stamps })
            w.deliveries
  unfolding cancel
  cancel-deliveries found live = ground arith

  cancel-answer :
      lookup order_id w.deliveries ≡ some d
      → state_beq d.state offering || state_beq d.state assigned ≡ true
      → (cancel env order_id w).0 ≡ freed
  unfolding cancel
  cancel-answer found live = ground arith

  cancel-riders :
      lookup order_id w.deliveries ≡ some d
      → state_beq d.state offering || state_beq d.state assigned ≡ true
      → (cancel env order_id w).1.riders
        ≡ (Store.finish_delivery d.rider_id order_id
            (Store.release_offer d.rider_id d.offer_id w.riders).1).1
  unfolding cancel
  cancel-riders found live = ground arith

  cancel-rider :
      (row : Rider)
      → lookup order_id w.deliveries ≡ some d
      → state_beq d.state offering || state_beq d.state assigned ≡ true
      → lookup d.rider_id w.riders ≡ some row
      → lookup d.rider_id (cancel env order_id w).1.riders
        ≡ some (freed_rider order_id d.offer_id row)
  cancel-rider row found live rider_found =
      ap (lookup d.rider_id) (cancel-riders found live)
      ∙ lookup-update_where_self d.rider_id has_order (finished_row order_id) _
      ∙ ap (updated has_order (finished_row order_id)) (
          lookup-update_where_self d.rider_id (locked_by d.offer_id) unlocked_row w.riders
          ∙ ap (updated (locked_by d.offer_id) unlocked_row) rider_found)
    where
      has_order : Rider → Bool
      has_order r = is_in order_id r.active_deliveries

  freed_rider_free :
      (row : Rider)
      → (locked_by d.offer_id (freed_rider order_id d.offer_id row) ≡ false)
        × (is_in order_id (freed_rider order_id d.offer_id row).active_deliveries ≡ false)
  freed_rider_free row =
      (ground arith, ground (arith, is_in-delete_from_set order_id row.active_deliveries))

  -- A cancel of a delivery that is offered or assigned cancels the row and leaves its rider neither
  -- locked by the offer nor with the order.
  pub cancel_frees :
      (row : Rider)
      → lookup order_id w.deliveries ≡ some d
      → state_beq d.state offering || state_beq d.state assigned ≡ true
      → lookup d.rider_id w.riders ≡ some row
      → let (answer, w') = cancel env order_id w in
        (answer ≡ freed)
        × (lookup order_id w'.deliveries
            ≡ some (record d { state = cancelled; stamps = stamp cancelled env.now d.stamps }))
        × ((row' : Rider) × (lookup d.rider_id w'.riders ≡ some row')
            × (locked_by d.offer_id row' ≡ false)
            × (is_in order_id row'.active_deliveries ≡ false))
  cancel_frees row found live rider_found = (
    cancel-answer found live,
    ap (lookup order_id) (cancel-deliveries found live)
        ∙ lookup-insert_self order_id _ w.deliveries,
    (
      freed_rider order_id d.offer_id row,
      cancel-rider row found live rider_found,
      (freed_rider_free row).0,
      (freed_rider_free row).1,
    ),
  )
