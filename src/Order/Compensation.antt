-- ===== src/Order/Compensation.antt =====
-- Whatever happens on the way, the saga of services/order/order/workflows.py ends with the account
-- that its answer promises.
use smart_food_ops.Prelude.{ℕ, ◌≡◌, refl, Bool, true, nat_eq, arith, Bool-cases, inl, inr, ◌⊎◌}
use smart_food_ops.Order.Rows.{CancelReason, no_rider_available, customer_cancelled}
use smart_food_ops.Order.Activities.{pick_up_move, deliver_move, settle_move, try_begin_cancel}
use smart_food_ops.Order.Saga.{
  capture_call, commit_call, cancel_dispatch_call, Saga, send, Ending, ended_settled, Script,
  others, CancelSeen, never, before_pickup, after_pickup,
}
use smart_food_ops.Order.Workflow.{
  capture_and_settle, try_cancel, deliver, find_rider, deliver_or_cancel,
}
use smart_food_ops.Order.Holdings.{held, held-send, agrees, covers}
use smart_food_ops.Order.Unwound.{move_then-agrees, unwind-agrees}

capture-agrees :
    (script : Script) (o : ℕ) (s : Saga) → agrees script o (capture_and_settle script o s) ≡ true
unfolding capture_and_settle agrees
capture-agrees script o s = elim (Bool-cases script.capturable) [
  | inr refused ↦ rw refused refl
  | inl capturable ↦ rw capturable (
      move_then-agrees script o script.now settle_move (λ done. (ended_settled, done))
        (send commit_call (send capture_call s))
        (λ t same at.
          ground (
            arith,
            same,
            at,
            held-send commit_call (send capture_call s),
            held-send capture_call s,
          )))
]

-- Before the capture: an unwind of both covers it.
abbrev pub untaken : Saga → Bool
untaken s = covers true true (held s)

try_cancel-agrees :
    (script : Script) (o : ℕ) (reason : CancelReason) (lost : Saga → Ending × Saga) (s : Saga)
    → untaken s ≡ true
    → ((t : Saga) → held t ≡ held s → agrees script o (lost t) ≡ true)
    → agrees script o (try_cancel script o reason (send cancel_dispatch_call) lost s) ≡ true
unfolding try_cancel held agrees
try_cancel-agrees script o reason lost s free after =
    elim (Bool-cases (try_begin_cancel script.now reason o s.world).0) [
      | inr late ↦ rw (late, try_cancel) (after _ refl)
      | inl won ↦
          rw (won, try_cancel)
            (let mine = record s { world = (try_begin_cancel script.now reason o s.world).1 } in
              unwind-agrees script o script.now reason true true (send cancel_dispatch_call mine)
                (rw (held-send cancel_dispatch_call mine) free))
    ]

deliver-agrees : (script : Script) (o : ℕ) (s : Saga) → agrees script o (deliver script o s) ≡ true
unfolding deliver
deliver-agrees script o s =
    move_then-agrees script o script.now deliver_move (capture_and_settle script o)
      (others script.on_road s) (λ t same at. capture-agrees script o t)

find_rider-agrees :
    (script : Script) (o : ℕ) (picked_up : Saga → Ending × Saga) (s : Saga)
    → untaken s ≡ true
    → ((t : Saga) → held t ≡ held s → agrees script o (picked_up t) ≡ true)
    → agrees script o (find_rider script o picked_up s) ≡ true
unfolding find_rider agrees
find_rider-agrees script o picked_up s free after = elim (Bool-cases script.rider_found) [
  | inl found ↦
      rw found
        (move_then-agrees script o script.now pick_up_move picked_up s (λ t same at. after t same))
  | inr nobody ↦ rw nobody (
      try_cancel-agrees script o no_rider_available (capture_and_settle script o) s free
        (λ t same. capture-agrees script o t))
]

seen-cases : (seen : CancelSeen) → (seen ≡ never) ⊎ ((seen ≡ before_pickup) ⊎ (seen ≡ after_pickup))
seen-cases never = inl refl
seen-cases before_pickup = inr (inl refl)
seen-cases after_pickup = inr (inr refl)

pub deliver_or_cancel-agrees :
    (script : Script) (o : ℕ) (s : Saga)
    → untaken s ≡ true
    → agrees script o (deliver_or_cancel script o s) ≡ true
unfolding deliver_or_cancel held agrees
deliver_or_cancel-agrees script o s free = elim (seen-cases script.cancel_seen) [
  | inl quiet ↦
      rw (quiet, deliver_or_cancel)
        (find_rider-agrees script o (deliver script o) (others script.in_kitchen s) free
          (λ t same. deliver-agrees script o t))
  | inr (inl early) ↦
      rw (early, deliver_or_cancel)
        (try_cancel-agrees script o customer_cancelled (find_rider script o (deliver script o))
          (others script.in_kitchen s) free
          (λ t same.
            find_rider-agrees script o (deliver script o) t (rw same free)
              (λ u same'. deliver-agrees script o u)))
  | inr (inr late) ↦
      rw (late, deliver_or_cancel)
        (find_rider-agrees script o _ (others script.in_kitchen s) free (λ t same.
          try_cancel-agrees script o customer_cancelled (deliver script o) t (rw same free)
            (λ u same'. deliver-agrees script o u)))
]
