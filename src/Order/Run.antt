-- ===== src/Order/Run.antt =====
-- The whole run of services/order/order/workflows.py, stage by stage.
use smart_food_ops.Prelude.{
  ℕ, ◌≡◌, refl, Bool, true, false, Option, [], nat_eq, arith, inl, inr, ◌⊎◌,
}
use smart_food_ops.Order.Rows.{
  OrderStatus, item_unavailable, at_capacity, payment_declined, system_timeout, World,
  PlacementInput,
}
use smart_food_ops.Order.Activities.{
  ReserveResult, reserve_ok, reserve_item_unavailable, reserve_at_capacity, AuthResult, auth_ok,
  auth_declined, create_order,
}
use smart_food_ops.Order.Graph.{at_placed, at_validated, at_payment_cleared}
use smart_food_ops.Order.Saga.{
  RemoteCall, Saga, Script, Forwarded, returned, ran_out, fault, forward_reserve, forward_authorize,
  forward_confirm,
}
use smart_food_ops.Order.Workflow.{confirm_stage, authorize_stage, reserve_stage, run}
use smart_food_ops.Order.Holdings.{held, agrees, covers, after_calls, is_excused}
use smart_food_ops.Order.Unwound.{cancel-agrees, land-cancel-agrees}
use smart_food_ops.Order.Compensation.{untaken}
use smart_food_ops.Order.Forward.{
  after_fork-agrees, confirmed_covers, forward_confirm-covers, forward_authorize-covers,
  forward_reserve-covers,
}

forwarded-cases :
    {A : Type 0} (f : Forwarded A)
    → ((a : A) × (f ≡ returned a))
      ⊎ (((late : Option RemoteCall) × (f ≡ ran_out late))
          ⊎ ((actual : Option OrderStatus) × (f ≡ fault actual)))
forwarded-cases (returned a) = inl (a, refl)
forwarded-cases (ran_out late) = inr (inl (late, refl))
forwarded-cases (fault actual) = inr (inr (actual, refl))

reserve-cases :
    (r : ReserveResult)
    → (r ≡ reserve_ok) ⊎ ((r ≡ reserve_item_unavailable) ⊎ (r ≡ reserve_at_capacity))
reserve-cases reserve_ok = inl refl
reserve-cases reserve_item_unavailable = inr (inl refl)
reserve-cases reserve_at_capacity = inr (inr refl)

auth-cases : (r : AuthResult) → (r ≡ auth_ok) ⊎ (r ≡ auth_declined)
auth-cases auth_ok = inl refl
auth-cases auth_declined = inr refl

confirm_stage-agrees :
    (script : Script) (o : ℕ) (s : Saga)
    → untaken s ≡ true
    → agrees script o (confirm_stage script o s) ≡ true
unfolding confirm_stage agrees
confirm_stage-agrees script o s free =
    let r = forward_confirm script.now o script.confirm s in
    let enough = forward_confirm-covers script.now o script.confirm s free in
    elim (forwarded-cases r.0) [
      | inl (a, e) ↦ rw (e, confirm_stage) (after_fork-agrees script o r.1 (covered r e enough))
      | inr (inl (late, e)) ↦
          rw (e, confirm_stage)
            (land-cancel-agrees script o late script.now at_payment_cleared system_timeout true true
              r.1 (covered_late script late r e enough).0 (covered_late script late r e enough).1)
      | inr (inr (actual, e)) ↦ rw (e, confirm_stage) refl
    ]
  where
    covered :
        {a : Bool} (r : Forwarded Bool × Saga)
        → r.0 ≡ returned a
        → confirmed_covers r ≡ true
        → untaken r.1 ≡ true
    covered r e h = ground arith

    covered_late :
        (script : Script) (late : Option RemoteCall) (r : Forwarded Bool × Saga)
        → r.0 ≡ ran_out late
        → confirmed_covers r ≡ true
        → (is_excused script late ≡ true) × (untaken r.1 ≡ true)
    covered_late script late r e h = ground arith

authorize_stage-agrees :
    (script : Script) (o : ℕ) (s : Saga)
    → covers false true (held s) ≡ true
    → agrees script o (authorize_stage script o s) ≡ true
unfolding authorize_stage agrees
authorize_stage-agrees script o s free =
    let r = forward_authorize script.now o script.authorize s in
    let enough = forward_authorize-covers script.now o script.authorize s free in
    elim (forwarded-cases r.0) [
      | inl (a, e) ↦ elim (auth-cases a) [
        | inl ok ↦
            rw (e, ok, authorize_stage)
              (confirm_stage-agrees script o r.1 (ground (arith, e, ok, enough)))
        | inr declined ↦
            rw (e, declined, authorize_stage)
              (cancel-agrees script o script.now at_validated payment_declined false true r.1
                (ground (arith, e, declined, enough)))
      ]
      | inr (inl (late, e)) ↦
          rw (e, authorize_stage)
            (land-cancel-agrees script o late script.now at_validated system_timeout true true r.1
              (ground (arith, e, enough)) (ground (arith, e, enough)))
      | inr (inr (actual, e)) ↦ rw (e, authorize_stage) refl
    ]

reserve_stage-agrees :
    (script : Script) (o : ℕ) (s : Saga)
    → covers false false (held s) ≡ true
    → agrees script o (reserve_stage script o s) ≡ true
unfolding reserve_stage agrees
reserve_stage-agrees script o s free =
    let r = forward_reserve script.now o script.reserve s in
    let enough = forward_reserve-covers script.now o script.reserve s free in
    elim (forwarded-cases r.0) [
      | inl (a, e) ↦ elim (reserve-cases a) [
        | inl ok ↦
            rw (e, ok, reserve_stage)
              (authorize_stage-agrees script o r.1 (ground (arith, e, ok, enough)))
        | inr (inl short) ↦
            rw (e, short, reserve_stage)
              (cancel-agrees script o script.now at_placed item_unavailable false false r.1
                (ground (arith, e, short, enough)))
        | inr (inr full) ↦
            rw (e, full, reserve_stage)
              (cancel-agrees script o script.now at_placed at_capacity false false r.1
                (ground (arith, e, full, enough)))
      ]
      | inr (inl (late, e)) ↦
          rw (e, reserve_stage)
            (land-cancel-agrees script o late script.now at_placed system_timeout false true r.1
              (ground (arith, e, enough)) (ground (arith, e, enough)))
      | inr (inr (actual, e)) ↦ rw (e, reserve_stage) refl
    ]

-- For every script of what the services answer, the deadline cuts off, the restaurant and the
-- customer decide and others write: if the run returns CANCELLED, the row is CANCELLED, no money is
-- taken, stock is held only if the reservation's attempt was in flight at the deadline, and the card
-- is held only if the authorization's was or the void was answered by a conflict; if it returns
-- SETTLED, the row is SETTLED, the money is taken, and no stock and no hold is held.
pub run-agrees :
    (script : Script) (placement : PlacementInput) (w : World)
    → agrees script placement.order_id (run script placement w) ≡ true
unfolding run held after_calls
run-agrees script placement w =
    reserve_stage-agrees script placement.order_id
      (record { world = (create_order placement w).1; remote = [] }) refl
