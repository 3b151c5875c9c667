-- ===== src/Order/Forward.antt =====
-- The forward steps of services/order/order/workflows.py under their deadline, and the whole run.
use smart_food_ops.Prelude.{
  ℕ, ◌≡◌, refl, Bool, true, false, ◌&&◌, Option, none, some, nat_eq, arith, Bool-cases, inl, inr,
  ◌⊎◌,
}
use smart_food_ops.Order.Rows.{
  OrderStatus, customer_cancelled, restaurant_timeout, restaurant_rejected,
}
use smart_food_ops.Order.Transitions.{Move, transition}
use smart_food_ops.Order.Activities.{
  accept_move, ReserveResult, reserve_ok, reserve_item_unavailable, reserve_at_capacity, AuthResult,
  auth_ok, auth_declined, validate_move, clear_move, confirm_move,
}
use smart_food_ops.Order.Kitchen.{Verdict, accept, reject}
use smart_food_ops.Order.Graph.{at_confirmed}
use smart_food_ops.Order.Saga.{
  reserve_call, authorize_call, Saga, send, Script, Forward, in_time, out_of_time, unsent, sent,
  in_flight, committed, Forwarded, returned, ran_out, fault, commit_move, forward_reserve,
  forward_authorize, forward_confirm,
}
use smart_food_ops.Order.Workflow.{deliver_or_cancel, after_fork, verdict_of}
use smart_food_ops.Order.Holdings.{held, held-send, agrees, covers, answer-cases, is_late}
use smart_food_ops.Order.Unwound.{move_then-agrees, cancel-agrees}
use smart_food_ops.Order.Compensation.{untaken, deliver_or_cancel-agrees}

verdict-cases : (v : Option Verdict) → (v ≡ none) ⊎ ((v ≡ some accept) ⊎ (v ≡ some reject))
verdict-cases none = inl refl
verdict-cases (some accept) = inr (inl refl)
verdict-cases (some reject) = inr (inr refl)

pub after_fork-agrees :
    (script : Script) (o : ℕ) (s : Saga)
    → untaken s ≡ true
    → agrees script o (after_fork script o s) ≡ true
unfolding after_fork agrees
after_fork-agrees script o s free = elim (Bool-cases script.fork.cancel_requested) [
  | inl asked ↦
      rw asked (cancel-agrees script o script.now at_confirmed customer_cancelled true true s free)
  | inr quiet ↦ elim (verdict-cases (verdict_of script.fork)) [
    | inl silent ↦
        rw (quiet, silent)
          (cancel-agrees script o script.now at_confirmed restaurant_timeout true true s free)
    | inr (inl agreed) ↦
        rw (quiet, agreed)
          (move_then-agrees script o script.now accept_move (deliver_or_cancel script o) s
            (λ t same at. deliver_or_cancel-agrees script o t (rw same free)))
    | inr (inr refused) ↦
        rw (quiet, refused)
          (cancel-agrees script o script.now at_confirmed restaurant_rejected true true s free)
  ]
]

-- A commit hands the answer on, or faults; it sends nothing.
module _ {A : Type 0} where
  commit-cases :
      (now o : ℕ) (move : Move) (answer : Forwarded A) (s : Saga)
      → ((t : Saga) × (held t ≡ held s) × (commit_move now o move answer s ≡ (answer, t)))
        ⊎ ((actual : Option OrderStatus) × (commit_move now o move answer s ≡ (fault actual, s)))
  unfolding commit_move held
  commit-cases now o move answer s = elim (answer-cases (transition now o move s.world).0) [
    | inl (applied, e) ↦
        inl (record s { world = (transition now o move s.world).1 }, refl, rw (e, commit_move) refl)
    | inr (actual, e) ↦ inr (actual, rw (e, commit_move) refl)
  ]

  -- What holds after an answer and after a fault holds after the commit.
  commit_move-covers :
      (now o : ℕ) (move : Move) (answer : Forwarded A) (s : Saga) (P : Forwarded A × Saga → Bool)
      → ((t : Saga) → held t ≡ held s → P (answer, t) ≡ true)
      → ((actual : Option OrderStatus) → P (fault actual, s) ≡ true)
      → P (commit_move now o move answer s) ≡ true
  commit_move-covers now o move answer s P after faulted = elim (commit-cases now o move answer s) [
    | inl (t, same, e) ↦ rw e (after t same)
    | inr (actual, e) ↦ rw e (faulted actual)
  ]

abbrev pub confirmed_covers : Forwarded Bool × Saga → Bool
confirmed_covers (fault _, s) = true
confirmed_covers (returned _, s) = untaken s
confirmed_covers (ran_out none, s) = untaken s
confirmed_covers (ran_out (some _), s) = false

pub forward_confirm-covers :
    (now o : ℕ) (step : Forward Bool) (s : Saga)
    → untaken s ≡ true
    → confirmed_covers (forward_confirm now o step s) ≡ true
unfolding forward_confirm
forward_confirm-covers now o (in_time _) s free =
    commit_move-covers now o confirm_move (returned true) s confirmed_covers
      (λ t same. rw same free) (λ actual. refl)
forward_confirm-covers now o (out_of_time unsent) s free = free
forward_confirm-covers now o (out_of_time sent) s free = free
forward_confirm-covers now o (out_of_time in_flight) s free = free
forward_confirm-covers now o (out_of_time committed) s free =
    commit_move-covers now o confirm_move (ran_out none) s confirmed_covers (λ t same. rw same free)
      (λ actual. refl)

abbrev pub authorized_covers : Forward AuthResult → Forwarded AuthResult × Saga → Bool
authorized_covers step (fault _, s) = true
authorized_covers step (returned auth_declined, s) = covers false true (held s)
authorized_covers step (returned auth_ok, s) = untaken s
authorized_covers step (ran_out none, s) = untaken s
authorized_covers step (ran_out (some (authorize_call _)), s) = untaken s && is_late step
authorized_covers step (ran_out (some _), s) = false

pub forward_authorize-covers :
    (now o : ℕ) (step : Forward AuthResult) (s : Saga)
    → covers false true (held s) ≡ true
    → authorized_covers step (forward_authorize now o step s) ≡ true
unfolding forward_authorize
forward_authorize-covers now o (in_time auth_ok) s free =
    commit_move-covers now o clear_move (returned auth_ok) (send (authorize_call true) s)
      (authorized_covers (in_time auth_ok))
      (λ t same. ground (arith, same, held-send (authorize_call true) s)) (λ actual. refl)
forward_authorize-covers now o (in_time auth_declined) s free =
    ground (arith, held-send (authorize_call false) s)
forward_authorize-covers now o (out_of_time unsent) s free = ground arith
forward_authorize-covers now o (out_of_time in_flight) s free = ground arith
forward_authorize-covers now o (out_of_time sent) s free =
    ground (arith, held-send (authorize_call true) s)
forward_authorize-covers now o (out_of_time committed) s free =
    commit_move-covers now o clear_move (ran_out none) (send (authorize_call true) s)
      (authorized_covers (out_of_time committed))
      (λ t same. ground (arith, same, held-send (authorize_call true) s)) (λ actual. refl)

abbrev pub reserved_covers : Forward ReserveResult → Forwarded ReserveResult × Saga → Bool
reserved_covers step (fault _, s) = true
reserved_covers step (returned reserve_ok, s) = covers false true (held s)
reserved_covers step (returned _, s) = covers false false (held s)
reserved_covers step (ran_out none, s) = covers false true (held s)
reserved_covers step (ran_out (some (reserve_call _)), s) =
    covers false true (held s) && is_late step
reserved_covers step (ran_out (some _), s) = false

pub forward_reserve-covers :
    (now o : ℕ) (step : Forward ReserveResult) (s : Saga)
    → covers false false (held s) ≡ true
    → reserved_covers step (forward_reserve now o step s) ≡ true
unfolding forward_reserve
forward_reserve-covers now o (in_time reserve_ok) s free =
    commit_move-covers now o validate_move (returned reserve_ok) (send (reserve_call true) s)
      (reserved_covers (in_time reserve_ok))
      (λ t same. ground (arith, same, held-send (reserve_call true) s)) (λ actual. refl)
forward_reserve-covers now o (in_time reserve_item_unavailable) s free =
    ground (arith, held-send (reserve_call false) s)
forward_reserve-covers now o (in_time reserve_at_capacity) s free =
    ground (arith, held-send (reserve_call false) s)
forward_reserve-covers now o (out_of_time unsent) s free = ground arith
forward_reserve-covers now o (out_of_time in_flight) s free = ground arith
forward_reserve-covers now o (out_of_time sent) s free =
    ground (arith, held-send (reserve_call true) s)
forward_reserve-covers now o (out_of_time committed) s free =
    commit_move-covers now o validate_move (ran_out none) (send (reserve_call true) s)
      (reserved_covers (out_of_time committed))
      (λ t same. ground (arith, same, held-send (reserve_call true) s)) (λ actual. refl)
