-- ===== src/Order/Replay.antt =====
-- The status writer's promises on one call: a replay changes nothing, a refusal changes nothing,
-- and an announcement goes out with the move it announces.
use smart_food_ops.Prelude.{
  ℕ, ◌≡◌, refl, Bool, true, false, Option, none, some, [], ◌∷◌, ◌++◌, nat_eq, arith, Option-cases,
  Bool-cases, inl, inr,
}
use smart_food_ops.Table.{lookup, lookup-insert_self}
use smart_food_ops.Order.Rows.{
  OrderStatus, status_beq, CancelReason, EventType, Order, moved_event, World,
}
use smart_food_ops.Order.Transitions.{
  Move, transition_result, illegal_transition, transition, moved_row, stage_move, full_state,
  items_of,
}
use smart_food_ops.Order.Steps.{transition_matched, stage_move-orders, moved_world}

abbrev pub has_status : OrderStatus → Option Order → Bool
has_status status none = false
has_status status (some row) = status_beq row.status status

-- The row after a move that matched.
pub lookup-moved :
    (now o : ℕ) (move : Move) (w : World) (row : Order)
    → lookup o w.orders ≡ some row
    → status_beq row.status move.expected ≡ true
    → lookup o (transition now o move w).1.orders ≡ some (moved_row move.target now row)
lookup-moved now o move w row found fits =
    rw
      (
        transition_matched now o move w row found fits,
        stage_move-orders o move.target move.event now move.cancel_reason
            (moved_world now o move row w),
      )
      (lookup-insert_self o (moved_row move.target now row) w.orders)

missed_result :
    (now o : ℕ) (move : Move) (w : World) (applied : Bool)
    → has_status move.expected (lookup o w.orders) ≡ false
    → (transition now o move w).0 ≡ transition_result applied
    → has_status move.target (lookup o (transition now o move w).1.orders) ≡ true
unfolding transition
missed_result now o move w applied misses answered = ground arith

-- A move that was answered with a result leaves the order at the target.
pub transition_result-target :
    (now o : ℕ) (move : Move) (w : World) (applied : Bool)
    → (transition now o move w).0 ≡ transition_result applied
    → has_status move.target (lookup o (transition now o move w).1.orders) ≡ true
transition_result-target now o move w applied answered = elim (Option-cases (lookup o w.orders)) [
  | inl absent ↦ missed_result now o move w applied (rw absent refl) answered
  | inr (row, found) ↦ elim (Bool-cases (status_beq row.status move.expected)) [
    | inr misses ↦ missed_result now o move w applied (rw (found, misses) refl) answered
    | inl fits ↦ rw (lookup-moved now o move w row found fits) (ground arith)
  ]
]

transition_at_target :
    (now o : ℕ) (move : Move) (w : World)
    → status_beq move.target move.expected ≡ false
    → has_status move.target (lookup o w.orders) ≡ true
    → transition now o move w ≡ (transition_result false, w)
unfolding transition
transition_at_target now o move w differ at = ground arith

stage_move-outbox :
    (o : ℕ) (target : OrderStatus) (event : EventType) (now : ℕ) (reason : Option CancelReason)
    (w : World) (row : Order)
    → lookup o w.orders ≡ some row
    → (stage_move o target (some event) now reason w).outbox
      ≡ w.outbox ++ moved_event event (full_state o target now reason row (items_of o w)) ∷ []
unfolding stage_move
stage_move-outbox o target event now reason w row found = ground arith

-- A move that was answered with a result, fresh or replayed, leaves the order at the target.
-- When the target is not the expected status, the same move asked again at any later time is
-- answered as a replay and changes nothing.
pub transition_again :
    (now later o : ℕ) (move : Move) (w : World) (applied : Bool)
    → status_beq move.target move.expected ≡ false
    → (transition now o move w).0 ≡ transition_result applied
    → transition later o move (transition now o move w).1
      ≡ (transition_result false, (transition now o move w).1)
transition_again now later o move w applied differ answered =
    transition_at_target later o move (transition now o move w).1 differ
      (transition_result-target now o move w applied answered)

-- A move that is refused as illegal changes nothing, and names the status found.
pub transition_refused :
    (now o : ℕ) (move : Move) (w : World) (actual : Option OrderStatus)
    → (transition now o move w).0 ≡ illegal_transition actual
    → transition now o move w ≡ (
      illegal_transition (elim (lookup o w.orders) [ none ↦ none | some row ↦ some row.status ]),
      w,
    )
unfolding transition
transition_refused now o move w actual refused = ground arith

-- A fresh move with an event appends exactly that event to the outbox. Its payload is the row as
-- it stands after the move, new status and stamp included.
pub transition_announces :
    (now o : ℕ) (move : Move) (event : EventType) (w : World) (row : Order)
    → lookup o w.orders ≡ some row
    → status_beq row.status move.expected ≡ true
    → move.event ≡ some event
    → (transition now o move w).1.outbox
      ≡ w.outbox
        ++ moved_event event (
            full_state o move.target now move.cancel_reason
              (moved_row move.target now row)
              (items_of o w))
          ∷ []
transition_announces now o move event w row found fits announces =
    rw (transition_matched now o move w row found fits, announces)
      (stage_move-outbox o move.target event now move.cancel_reason (moved_world now o move row w) _
        (lookup-insert_self o (moved_row move.target now row) w.orders))
