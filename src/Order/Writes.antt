-- ===== src/Order/Writes.antt =====
-- The other writes of `orders`: the placement's insert, the rider's stamp and the brand's backfill.
use smart_food_ops.Prelude.{
  ℕ, ◌≡◌, refl, true, ◌||◌, Option, none, some, [], ◌∷◌, nat_beq_iff, if◌then◌else◌, arith, nat_eq,
  Option-cases, inl, inr,
}
use smart_food_ops.Table.{Table, lookup, insert, lookup-insert, lookup-insert_self}
use smart_food_ops.Order.Rows.{Order, Cancellation, World, PlacementInput}
use smart_food_ops.Order.Transitions.{record_rider, repoint_rows, repoint_brand, lacks_brand}
use smart_food_ops.Order.Activities.{insert_placement, create_order, placed_row}
use smart_food_ops.Order.Graph.{is_timely, is_some, stamps_set, columns}
use smart_food_ops.Order.Sound.{
  is_sound, IsSound, is_later, is_later_refl, Step, one_row-Step, keeps_all_refl,
}
use smart_food_ops.Order.Steps.{unchanged-Step}

record_rider-orders :
    (o rider_id : ℕ) (w : World) (row : Order)
    → lookup o w.orders ≡ some row
    → (record_rider o rider_id w).orders
      ≡ insert o (record row { rider_id = some rider_id }) w.orders
unfolding record_rider
record_rider-orders o rider_id w row found = ground arith

record_rider_absent :
    (o rider_id : ℕ) (w : World) → lookup o w.orders ≡ none → record_rider o rider_id w ≡ w
unfolding record_rider
record_rider_absent o rider_id w absent = ground arith

record_rider-cancellations :
    (o rider_id : ℕ) (w : World) → (record_rider o rider_id w).cancellations ≡ w.cancellations
unfolding record_rider
record_rider-cancellations o rider_id w = refl

pub record_rider-Step : (o rider_id : ℕ) (w : World) → Step w (record_rider o rider_id w)
record_rider-Step o rider_id w = elim (Option-cases (lookup o w.orders)) [
  | inl absent ↦ unchanged-Step w _ (record_rider_absent o rider_id w absent)
  | inr (row, found) ↦
      one_row-Step o row (record row { rider_id = some rider_id }) w _ found
        (record_rider-orders o rider_id w row found)
        (λ h. rw (record_rider-cancellations o rider_id w) h)
        (λ h. ground (arith, keeps_all_refl (columns row.milestones)))
        (λ j other. rw (record_rider-cancellations o rider_id w) refl)
]

abbrev healed : ℕ → ℕ → Order → Order
healed restaurant_id brand_id row =
    if lacks_brand restaurant_id row then record row { brand_id = some brand_id } else row

abbrev healed_at : ℕ → ℕ → Option Order → Option Order
healed_at restaurant_id brand_id none = none
healed_at restaurant_id brand_id (some row) = some (healed restaurant_id brand_id row)

repoint_rows-cons :
    (r b o : ℕ) (row : Order) (t : Table ℕ Order)
    → (repoint_rows r b ((o, row) ∷ t)).1 ≡ (o, healed r b row) ∷ (repoint_rows r b t).1
unfolding repoint_rows
repoint_rows-cons r b o row t = ground arith

pub lookup-repoint_rows :
    (r b j : ℕ) (t : Table ℕ Order) → lookup j (repoint_rows r b t).1 ≡ healed_at r b (lookup j t)
unfolding lookup repoint_rows
lookup-repoint_rows r b j [] = refl
lookup-repoint_rows r b j ((o, row) ∷ t) =
    rw (repoint_rows-cons r b o row t) (ground (arith, lookup-repoint_rows r b j t))

healed_at_later : (r b : ℕ) (before : Option Order) → is_later before (healed_at r b before) ≡ true
healed_at_later r b none = refl
healed_at_later r b (some row) = ground (arith, keeps_all_refl (columns row.milestones))

healed_at-is_sound :
    (r b : ℕ) (before : Option Order) (cancellation : Option Cancellation)
    → is_sound (healed_at r b before) cancellation ≡ is_sound before cancellation
healed_at-is_sound r b none cancellation = refl
healed_at-is_sound r b (some row) cancellation = ground arith

pub repoint_brand-Step : (r b : ℕ) (w : World) → Step w (repoint_brand r b w).1
unfolding repoint_brand IsSound
repoint_brand-Step r b w = record {
  sound = λ s o.
      rw
        (
          lookup-repoint_rows r b o w.orders,
          healed_at-is_sound r b (lookup o w.orders) (lookup o w.cancellations),
        )
        (s o);
  later = λ s o. rw (lookup-repoint_rows r b o w.orders) (healed_at_later r b (lookup o w.orders));
}

-- A new row, under a key that had none.
new_row-Step :
    (o : ℕ) (row : Order) (w w' : World)
    → lookup o w.orders ≡ none
    → w'.orders ≡ insert o row w.orders
    → w'.cancellations ≡ w.cancellations
    → is_sound (some row) none ≡ true
    → Step w w'
unfolding IsSound
new_row-Step o row w w' absent written kept sound = record {
  sound = λ s j. ground (arith, nat_beq_iff o j, lookup-insert o j row w.orders, s j);
  later = λ s j.
      ground
        (arith, nat_beq_iff o j, lookup-insert o j row w.orders, is_later_refl (lookup j w.orders));
}

placed_row-is_sound :
    (placement : PlacementInput) → is_sound (some (placed_row placement)) none ≡ true
unfolding is_timely stamps_set
placed_row-is_sound placement = refl

pub create_order_refused :
    (placement : PlacementInput) (w : World)
    → is_some (lookup placement.order_id w.orders)
        || is_some (lookup placement.order_id w.order_items)
      ≡ true
    → (create_order placement w).1 ≡ w
unfolding create_order insert_placement
create_order_refused placement w taken = ground arith

pub create_order-orders :
    (placement : PlacementInput) (w : World)
    → lookup placement.order_id w.orders ≡ none
    → lookup placement.order_id w.order_items ≡ none
    → (create_order placement w).1.orders
      ≡ insert placement.order_id (placed_row placement) w.orders
unfolding create_order insert_placement
create_order-orders placement w absent free = ground arith

create_order-cancellations :
    (placement : PlacementInput) (w : World)
    → (create_order placement w).1.cancellations ≡ w.cancellations
unfolding create_order insert_placement
create_order-cancellations placement w = ground arith

pub create_order-Step :
    (placement : PlacementInput) (w : World) → Step w (create_order placement w).1
create_order-Step placement w = elim (Option-cases (lookup placement.order_id w.orders)) [
  | inr (row, found) ↦ unchanged-Step w _ (create_order_refused placement w (rw found refl))
  | inl absent ↦ elim (Option-cases (lookup placement.order_id w.order_items)) [
    | inr (lines, found) ↦
        unchanged-Step w _ (create_order_refused placement w (rw (absent, found) refl))
    | inl free ↦
        new_row-Step placement.order_id (placed_row placement) w _ absent
          (create_order-orders placement w absent free) (create_order-cancellations placement w)
          (placed_row-is_sound placement)
  ]
]

-- The row of an order that was new.
pub created_row :
    (placement : PlacementInput) (w : World)
    → lookup placement.order_id w.orders ≡ none
    → lookup placement.order_id w.order_items ≡ none
    → lookup placement.order_id (create_order placement w).1.orders ≡ some (placed_row placement)
created_row placement w absent free =
    rw (create_order-orders placement w absent free)
      (lookup-insert_self placement.order_id (placed_row placement) w.orders)
