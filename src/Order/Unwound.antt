-- ===== src/Order/Unwound.antt =====
-- The unwind and `_cancel` of services/order/order/workflows.py against the account of the calls.
use smart_food_ops.Prelude.{
  ℕ, ◌≡◌, refl, Bool, true, false, ◌&&◌, Option, none, some, nat_eq, arith, if◌then◌else◌, inl, inr,
}
use smart_food_ops.Table.{lookup}
use smart_food_ops.Order.Rows.{OrderStatus, cancelled, CancelReason}
use smart_food_ops.Order.Transitions.{Move, transition}
use smart_food_ops.Order.Activities.{finish_cancel_move, begin_cancel_move}
use smart_food_ops.Order.Graph.{Stage, stage_status}
use smart_food_ops.Order.Replay.{has_status, transition_result-target}
use smart_food_ops.Order.Saga.{
  RemoteCall, void_call, release_call, Saga, send_if, Ending, ended_cancelled, ended_settled,
  failed_illegal, failed_capture, move_then, unwind, cancel, land, Script,
}
use smart_food_ops.Order.Holdings.{
  after_call, held, held-send, leaves, agrees, covers, answer-cases, is_excused,
}

-- What holds after a refusal and after the steps that follow holds after the move.
pub move_then_holds :
    (now o : ℕ) (move : Move) (next : Saga → Ending × Saga) (s : Saga) (P : Ending × Saga → Bool)
    → ((actual : Option OrderStatus) → P (failed_illegal actual, s) ≡ true)
    → ((t : Saga)
        → held t ≡ held s
        → has_status move.target (lookup o t.world.orders) ≡ true
        → P (next t) ≡ true)
    → P (move_then now o move next s) ≡ true
unfolding held move_then
move_then_holds now o move next s P refused after =
    elim (answer-cases (transition now o move s.world).0) [
      | inr (actual, answered) ↦ rw (answered, move_then) (refused actual)
      | inl (applied, answered) ↦
          rw (answered, move_then)
            (after (record s { world = (transition now o move s.world).1 }) refl
              (transition_result-target now o move s.world applied answered))
    ]

module _ (script : Script) (o : ℕ) where
  pub move_then-agrees :
      (now : ℕ) (move : Move) (next : Saga → Ending × Saga) (s : Saga)
      → ((t : Saga)
          → held t ≡ held s
          → has_status move.target (lookup o t.world.orders) ≡ true
          → agrees script o (next t) ≡ true)
      → agrees script o (move_then now o move next s) ≡ true
  unfolding agrees
  move_then-agrees now move next s after =
      move_then_holds now o move next s (agrees script o) (λ actual. refl) after

  -- An ending that nothing but a cancel has, with the account that it leaves.
  abbrev pub is_unwound : Ending × Saga → Bool
  is_unwound (ended_cancelled, s) =
      has_status cancelled (lookup o s.world.orders) && leaves script (held s)
  is_unwound (failed_illegal _, s) = true
  is_unwound _ = false

  is_unwound-agrees : (r : Ending × Saga) → is_unwound r ≡ true → agrees script o r ≡ true
  unfolding agrees
  is_unwound-agrees (ended_cancelled, s) h = h
  is_unwound-agrees (ended_settled, s) h = ground arith
  is_unwound-agrees (failed_illegal actual, s) h = refl
  is_unwound-agrees (failed_capture, s) h = refl

  held-send_if :
      (flag : Bool) (call : RemoteCall) (s : Saga)
      → held (send_if flag call s) ≡ (if flag then after_call call (held s) else held s)
  held-send_if flag call s = ground (arith, held-send call s)

  unwind_lem :
      (now : ℕ) (reason : CancelReason) (void release : Bool) (s : Saga)
      → covers void release (held s) ≡ true
      → is_unwound (unwind now script.voids o reason void release s) ≡ true
  unfolding unwind
  unwind_lem now reason void release s enough =
      let voided = send_if void (void_call script.voids) s in
      move_then_holds now o (finish_cancel_move reason) (λ done. (ended_cancelled, done))
        (send_if release release_call voided) is_unwound (λ actual. refl)
        (λ t same at. ground (
          arith,
          same,
          at,
          enough,
          held-send_if void (void_call script.voids) s,
          held-send_if release release_call voided,
        ))

  pub unwind-agrees :
      (now : ℕ) (reason : CancelReason) (void release : Bool) (s : Saga)
      → covers void release (held s) ≡ true
      → agrees script o (unwind now script.voids o reason void release s) ≡ true
  unwind-agrees now reason void release s enough =
      is_unwound-agrees (unwind now script.voids o reason void release s)
        (unwind_lem now reason void release s enough)

  cancel_lem :
      (now : ℕ) (expected : Stage) (reason : CancelReason) (void release : Bool) (s : Saga)
      → covers void release (held s) ≡ true
      → is_unwound (cancel now script.voids o expected reason void release s) ≡ true
  unfolding cancel
  cancel_lem now expected reason void release s enough =
      move_then_holds now o (begin_cancel_move (stage_status expected) reason) _ s is_unwound
        (λ actual. refl) (λ t same at. unwind_lem now reason void release t (rw same enough))

  pub cancel-agrees :
      (now : ℕ) (expected : Stage) (reason : CancelReason) (void release : Bool) (s : Saga)
      → covers void release (held s) ≡ true
      → agrees script o (cancel now script.voids o expected reason void release s) ≡ true
  cancel-agrees now expected reason void release s enough =
      is_unwound-agrees (cancel now script.voids o expected reason void release s)
        (cancel_lem now expected reason void release s enough)

  land_lem :
      (late : Option RemoteCall) (r : Ending × Saga)
      → is_excused script late ≡ true
      → is_unwound r ≡ true
      → is_unwound (land late r) ≡ true
  land_lem none r excused h = h
  land_lem (some call) (ended_cancelled, s) excused h = ground (arith, held-send call s)
  land_lem (some call) (ended_settled, s) excused h = ground arith
  land_lem (some call) (failed_illegal actual, s) excused h = refl
  land_lem (some call) (failed_capture, s) excused h = ground arith

  pub land-cancel-agrees :
      (late : Option RemoteCall) (now : ℕ) (expected : Stage) (reason : CancelReason)
      (void release : Bool) (s : Saga)
      → is_excused script late ≡ true
      → covers void release (held s) ≡ true
      → agrees script o (land late (cancel now script.voids o expected reason void release s))
        ≡ true
  land-cancel-agrees late now expected reason void release s excused enough =
      is_unwound-agrees (land late (cancel now script.voids o expected reason void release s)) (
        land_lem late (cancel now script.voids o expected reason void release s) excused
          (cancel_lem now expected reason void release s enough))
