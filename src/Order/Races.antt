-- ===== src/Order/Races.antt =====
-- Races for one order: the customer against the courier, and verdicts against the one applied.
use smart_food_ops.Prelude.{
  ℕ, ◌≡◌, refl, subst, Bool, true, false, ◌||◌, Option, some, List, [], nat_eq, arith, Option-cases,
  Bool-cases, inl, inr,
}
use smart_food_ops.Table.{lookup, lookup-insert_self}
use smart_food_ops.Order.Rows.{
  OrderStatus, confirmed, ready, picked_up, cancelling, status_beq, CancelReason, Order, World,
}
use smart_food_ops.Order.Transitions.{illegal_transition, transition, begin_cancel_from, is_one_of}
use smart_food_ops.Order.Activities.{try_begin_cancel, cancellable_kitchen_states, pick_up_move}
use smart_food_ops.Order.Kitchen.{
  Verdict, decide, decide_row, owned, is_own, accepted_family, cancel_family, cancel_reason_of,
}
use smart_food_ops.Order.Sound.{IsSound, is_later}
use smart_food_ops.Order.History.{Call, serve, serve_later}
use smart_food_ops.Order.Steps.{begin_matched}
use smart_food_ops.Order.Replay.{has_status, lookup-moved}

begin_late :
    (now o : ℕ) (reason : CancelReason) (w : World)
    → has_status picked_up (lookup o w.orders) ≡ true
    → try_begin_cancel now reason o w ≡ (false, w)
unfolding try_begin_cancel begin_cancel_from
begin_late now o reason w at = ground arith

-- The courier against the customer: once a READY order is picked up, an attempt to cancel it in
-- the kitchen is refused and changes nothing.
pub courier_wins :
    (now later o : ℕ) (reason : CancelReason) (w : World) (row : Order)
    → lookup o w.orders ≡ some row
    → status_beq row.status ready ≡ true
    → try_begin_cancel later reason o (transition now o pick_up_move w).1
      ≡ (false, (transition now o pick_up_move w).1)
courier_wins now later o reason w row found at =
    begin_late later o reason _ (rw (lookup-moved now o pick_up_move w row found at) refl)

pick_up_late :
    (now o : ℕ) (w : World)
    → has_status cancelling (lookup o w.orders) ≡ true
    → transition now o pick_up_move w ≡ (illegal_transition (some cancelling), w)
unfolding transition
pick_up_late now o w at = ground arith

-- The customer against the courier: cancelling an order that is ACCEPTED, PREPARING or READY
-- succeeds, and after it the pickup is refused as illegal and changes nothing.
pub customer_wins :
    (now later o : ℕ) (reason : CancelReason) (w : World) (row : Order)
    → lookup o w.orders ≡ some row
    → is_one_of cancellable_kitchen_states row.status ≡ true
    → ((try_begin_cancel now reason o w).0 ≡ true)
      × (transition later o pick_up_move (try_begin_cancel now reason o w).1
          ≡ (illegal_transition (some cancelling), (try_begin_cancel now reason o w).1))
unfolding try_begin_cancel
customer_wins now later o reason w row found fits =
    let cancels = begin_matched now o cancellable_kitchen_states reason w row found fits in
    rw cancels (
      refl,
      pick_up_late later o _ (
          rw (lookup-insert_self o (record row { status = cancelling; updated_at = now }) w.orders)
            refl),
    )

decide_row_silent :
    (listening : Bool) (o : ℕ) (status : OrderStatus) (reason : Option CancelReason)
    (verdict : Verdict)
    → status_beq status confirmed ≡ false
    → (decide_row listening o status reason verdict).1 ≡ []
unfolding decide_row
decide_row_silent listening o status reason verdict past = ground arith

later_past :
    (row : Order) (after : Option Order)
    → is_later (some row) after ≡ true
    → is_one_of accepted_family row.status || is_one_of cancel_family row.status ≡ true
    → has_status confirmed after ≡ false
later_past row after later decided = ground arith

decide_silent :
    (listening : Bool) (r o : ℕ) (verdict : Verdict) (w : World)
    → has_status confirmed (lookup o w.orders) ≡ false
    → (decide listening r o verdict w).1 ≡ []
unfolding decide owned
decide_silent listening r o verdict w past = elim (Option-cases (lookup o w.orders)) [
  | inl absent ↦ rw (absent, decide) refl
  | inr (row, found) ↦ elim (Bool-cases (is_own r row)) [
    | inr foreign ↦ rw (found, foreign, decide) refl
    | inl own ↦
        rw (found, own, decide)
          (decide_row_silent listening o row.status (cancel_reason_of o w) verdict
            (subst (λ found'. has_status confirmed found' ≡ false) found past))
  ]
]

-- From any sound database: once an order was accepted or is being cancelled, then after any further
-- calls no verdict of any restaurant reaches the saga.
pub decided_once :
    (calls : List (ℕ × Call)) (listening : Bool) (r o : ℕ) (verdict : Verdict) (w : World)
    (row : Order)
    → IsSound w
    → lookup o w.orders ≡ some row
    → is_one_of accepted_family row.status || is_one_of cancel_family row.status ≡ true
    → (decide listening r o verdict (serve calls w)).1 ≡ []
decided_once calls listening r o verdict w row s found decided =
    decide_silent listening r o verdict (serve calls w) (
      later_past row _
        (subst (λ before. is_later before (lookup o (serve calls w).orders) ≡ true) found
          (serve_later calls w o s))
        decided)
