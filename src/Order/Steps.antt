-- ===== src/Order/Steps.antt =====
-- Each transaction of domain/transitions.py, and `create_order`, keeps the invariant and the past
-- of every row.
use smart_food_ops.Prelude.{
  ℕ, ◌≡◌, refl, true, false, Option, none, some, List, nat_beq_iff, arith, nat_eq, Option-cases,
  Bool-cases, inl, inr,
}
use smart_food_ops.Table.{Table, lookup, insert}
use smart_food_ops.Order.Rows.{
  OrderStatus, cancelling, status_beq, CancelReason, EventType, Order, Cancellation, World,
}
use smart_food_ops.Order.Transitions.{
  Move, transition_result, stage_move, transition, moved_row, record_reason, record_cancellation,
  publish_status, begin_cancel_from, is_one_of,
}
use smart_food_ops.Order.Activities.{cancellable_kitchen_states}
use smart_food_ops.Order.Graph.{Legal, is_timely, stamps_set, columns, Legal-timely, status_beq-≡}
use smart_food_ops.Order.Sound.{
  is_sound, is_later, is_later_refl, Step, one_row-Step, Legal-later, Legal-reason,
  lookup-record_reason, keeps_all_refl,
}

pub unchanged-Step : (w w' : World) → w' ≡ w → Step w w'
unchanged-Step w w' same =
    rw same (record { sound = λ s. s; later = λ s o. is_later_refl (lookup o w.orders) })

pub stage_move-orders :
    (o : ℕ) (target : OrderStatus) (event : Option EventType) (now : ℕ)
    (reason : Option CancelReason) (w : World)
    → (stage_move o target event now reason w).orders ≡ w.orders
unfolding stage_move
stage_move-orders o target event now reason w = ground arith

pub stage_move-cancellations :
    (o : ℕ) (target : OrderStatus) (event : Option EventType) (now : ℕ)
    (reason : Option CancelReason) (w : World)
    → (stage_move o target event now reason w).cancellations ≡ w.cancellations
unfolding stage_move
stage_move-cancellations o target event now reason w = ground arith

-- The order_db of a move that matched, before its event and its hint.
abbrev pub moved_world : ℕ → ℕ → Move → Order → World → World
moved_world now o move row w = record w {
  orders = insert o (moved_row move.target now row) w.orders;
  cancellations = record_reason o move.cancel_reason now w.cancellations;
}

pub transition_matched :
    (now o : ℕ) (move : Move) (w : World) (row : Order)
    → lookup o w.orders ≡ some row
    → status_beq row.status move.expected ≡ true
    → transition now o move w ≡ (
      transition_result true,
      publish_status o move.target (
          stage_move o move.target move.event now move.cancel_reason
            (moved_world now o move row w)),
    )
unfolding transition
transition_matched now o move w row found fits = ground arith

pub transition_missed :
    (now o : ℕ) (move : Move) (w : World) (row : Order)
    → lookup o w.orders ≡ some row
    → status_beq row.status move.expected ≡ false
    → (transition now o move w).1 ≡ w
unfolding transition
transition_missed now o move w row found misses = ground arith

pub transition_absent :
    (now o : ℕ) (move : Move) (w : World)
    → lookup o w.orders ≡ none
    → (transition now o move w).1 ≡ w
unfolding transition
transition_absent now o move w absent = ground arith

moved_row-is_sound :
    (now o : ℕ) (move : Move) (row : Order) (cancellations : Table ℕ Cancellation)
    → Legal move
    → row.status ≡ move.expected
    → is_sound (some row) (lookup o cancellations) ≡ true
    → is_sound
        (some (moved_row move.target now row))
        (lookup o (record_reason o move.cancel_reason now cancellations))
      ≡ true
moved_row-is_sound now o move row cancellations legal at h = ground (
  arith,
  Legal-timely move legal now row.milestones,
  Legal-reason move legal,
  lookup-record_reason o o move.cancel_reason now cancellations,
  nat_beq_iff o o,
)

pub transition-Step :
    (now o : ℕ) (move : Move) (w : World) → Legal move → Step w (transition now o move w).1
transition-Step now o move w legal = elim (Option-cases (lookup o w.orders)) [
  | inl absent ↦ unchanged-Step w _ (transition_absent now o move w absent)
  | inr (row, found) ↦ elim (Bool-cases (status_beq row.status move.expected)) [
    | inr misses ↦ unchanged-Step w _ (transition_missed now o move w row found misses)
    | inl fits ↦
        let at = status_beq-≡ row.status move.expected fits in
        let moved = moved_world now o move row w in
        rw (transition_matched now o move w row found fits) (
          one_row-Step o row (moved_row move.target now row) w _ found
            (stage_move-orders o move.target move.event now move.cancel_reason moved)
            (λ h.
              rw (stage_move-cancellations o move.target move.event now move.cancel_reason moved)
                (moved_row-is_sound now o move row w.cancellations legal at h))
            (λ h. ground (arith, Legal-later move legal now row.milestones, at, h))
            (λ j other.
              rw (stage_move-cancellations o move.target move.event now move.cancel_reason moved) (
                ground
                  (arith, lookup-record_reason o j move.cancel_reason now w.cancellations, other))))
  ]
]

pub begin_matched :
    (now o : ℕ) (allowed : List OrderStatus) (reason : CancelReason) (w : World) (row : Order)
    → lookup o w.orders ≡ some row
    → is_one_of allowed row.status ≡ true
    → begin_cancel_from now o allowed reason w ≡ (
      true,
      publish_status o cancelling (record w {
        orders = insert o (record row { status = cancelling; updated_at = now }) w.orders;
        cancellations = record_cancellation o reason now w.cancellations;
      }),
    )
unfolding begin_cancel_from
begin_matched now o allowed reason w row found fits = ground arith

pub begin_missed :
    (now o : ℕ) (allowed : List OrderStatus) (reason : CancelReason) (w : World)
    → (elim (lookup o w.orders) [ none ↦ false | some row ↦ is_one_of allowed row.status ]) ≡ false
    → (begin_cancel_from now o allowed reason w).1 ≡ w
unfolding begin_cancel_from
begin_missed now o allowed reason w misses = ground arith

kitchen_row-is_sound :
    (now o : ℕ) (row : Order) (reason : CancelReason) (cancellations : Table ℕ Cancellation)
    → is_one_of cancellable_kitchen_states row.status ≡ true
    → is_sound (some row) (lookup o cancellations) ≡ true
    → is_sound
        (some (record row { status = cancelling; updated_at = now }))
        (lookup o (record_cancellation o reason now cancellations))
      ≡ true
unfolding is_timely stamps_set
kitchen_row-is_sound now o row reason cancellations allowed h =
    ground (arith, lookup-record_reason o o (some reason) now cancellations, nat_beq_iff o o)

kitchen_row_later :
    (now : ℕ) (row : Order)
    → is_one_of cancellable_kitchen_states row.status ≡ true
    → is_later (some row) (some (record row { status = cancelling; updated_at = now })) ≡ true
kitchen_row_later now row allowed = ground (arith, keeps_all_refl (columns row.milestones))

pub try_begin-Step :
    (now o : ℕ) (reason : CancelReason) (w : World)
    → Step w (begin_cancel_from now o cancellable_kitchen_states reason w).1
try_begin-Step now o reason w = elim (Option-cases (lookup o w.orders)) [
  | inl absent ↦
      unchanged-Step w _ (begin_missed now o cancellable_kitchen_states reason w (rw absent refl))
  | inr (row, found) ↦ elim (Bool-cases (is_one_of cancellable_kitchen_states row.status)) [
    | inr misses ↦
        unchanged-Step w _
          (begin_missed now o cancellable_kitchen_states reason w (rw found misses))
    | inl fits ↦ rw (begin_matched now o cancellable_kitchen_states reason w row found fits) (
        one_row-Step o row (record row { status = cancelling; updated_at = now }) w _ found refl
          (kitchen_row-is_sound now o row reason w.cancellations fits)
          (λ h. kitchen_row_later now row fits)
          (λ j other.
            ground (arith, lookup-record_reason o j (some reason) now w.cancellations, other)))
  ]
]
