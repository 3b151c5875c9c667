-- ===== src/Order/Holdings.antt =====
-- What the saga of services/order/order/workflows.py holds with the other services, as an
-- independent account of the calls it sent, and what its endings promise.
use smart_food_ops.Prelude.{
  ℕ, ◌≡◌, refl, Bool, true, false, ◌&&◌, ◌||◌, not, Option, none, some, List, [], ◌∷◌, ◌++◌, nat_eq,
  inl, inr, ◌⊎◌,
}
use smart_food_ops.Table.{lookup}
use smart_food_ops.Order.Rows.{OrderStatus, settled, cancelled}
use smart_food_ops.Order.Transitions.{TransitionAnswer, transition_result, illegal_transition}
use smart_food_ops.Order.Replay.{has_status}
use smart_food_ops.Order.Saga.{
  RemoteCall, reserve_call, authorize_call, void_call, release_call, capture_call, commit_call,
  cancel_dispatch_call, Saga, send, Ending, ended_cancelled, ended_settled, failed_illegal,
  failed_capture, Script, Forward, out_of_time, in_flight,
}

-- Stock that is reserved, a hold on the card, and money taken.
pub record Holdings : Type 0 where
  pub stock : Bool
  pub hold : Bool
  pub taken : Bool

abbrev pub nothing : Holdings
nothing = record { stock = false; hold = false; taken = false }

abbrev pub after_call : RemoteCall → Holdings → Holdings
after_call (reserve_call ok) h = record h { stock = h.stock || ok }
after_call (authorize_call ok) h = record h { hold = h.hold || ok }
after_call (void_call done) h = record h { hold = h.hold && not done }
after_call release_call h = record h { stock = false }
after_call capture_call h = record h { hold = false; taken = true }
after_call commit_call h = record h { stock = false }
after_call cancel_dispatch_call h = h

unfoldable pub after_calls : List RemoteCall → Holdings → Holdings
after_calls [] h = h
after_calls (call ∷ calls) h = after_calls calls (after_call call h)

unfoldable pub held : Saga → Holdings
unfolding after_calls
held s = after_calls s.remote nothing

after_calls-append :
    (calls : List RemoteCall) (call : RemoteCall) (h : Holdings)
    → after_calls (calls ++ call ∷ []) h ≡ after_call call (after_calls calls h)
unfolding after_calls
after_calls-append [] call h = refl
after_calls-append (first ∷ calls) call h = after_calls-append calls call (after_call first h)

pub held-send : (call : RemoteCall) (s : Saga) → held (send call s) ≡ after_call call (held s)
unfolding held
held-send call s = after_calls-append s.remote call nothing

-- The last attempt of a step was in flight when the deadline struck.
abbrev pub is_late : {A : Type 0} → Forward A → Bool
is_late (out_of_time in_flight) = true
is_late _ = false

-- Nothing is left, but for stock that a late reservation takes, and a hold that a late authorization
-- makes or that no void has lifted.
abbrev pub leaves : Script → Holdings → Bool
leaves script h =
    not h.taken
    && (not h.stock || is_late script.reserve)
    && (not h.hold || not script.voids || is_late script.authorize)

abbrev pub holds_payment : Holdings → Bool
holds_payment h = not h.stock && not h.hold && h.taken

-- The row and the account say what the ending says.
unfoldable pub agrees : Script → ℕ → Ending × Saga → Bool
unfolding held
agrees script o (ended_cancelled, s) =
    has_status cancelled (lookup o s.world.orders) && leaves script (held s)
agrees script o (ended_settled, s) =
    has_status settled (lookup o s.world.orders) && holds_payment (held s)
agrees script o (failed_illegal _, s) = true
agrees script o (failed_capture, s) = true

-- An unwind with these flags gives back all that is held.
abbrev pub covers : Bool → Bool → Holdings → Bool
covers void release h = (not h.hold || void) && (not h.stock || release) && not h.taken

pub answer-cases :
    (a : TransitionAnswer)
    → ((applied : Bool) × (a ≡ transition_result applied))
      ⊎ ((actual : Option OrderStatus) × (a ≡ illegal_transition actual))
answer-cases (transition_result applied) = inl (applied, refl)
answer-cases (illegal_transition actual) = inr (actual, refl)

-- The call in flight is of the step that the script says was late.
abbrev pub is_excused : Script → Option RemoteCall → Bool
is_excused script none = true
is_excused script (some (reserve_call _)) = is_late script.reserve
is_excused script (some (authorize_call _)) = is_late script.authorize
is_excused script (some _) = false
