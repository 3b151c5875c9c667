-- ===== src/Order/Cascade.antt =====
-- The offer cascade of services/order/order/workflows.py: `DeliveryWorkflow.run` and `_assign`, when
-- nobody cancels the workflow. What each activity answers and when each signal comes is a script.
use smart_food_ops.Prelude.{
  ℕ, zero, suc, ◌+◌, Option, none, some, List, [], ◌∷◌, ◌++◌, ltb, leb, nat_beq, if◌then◌else◌,
}

pub record DeliveryInput : Type 0 where
  pub offer_first_timeout : ℕ
  pub offer_next_timeout : ℕ
  pub no_candidates_retry : ℕ
  pub pickup_timeout : ℕ
  pub no_rider_deadline : ℕ

pub data FindAnswer : Type 0 where
  found_nobody : FindAnswer
  made_offer : ℕ → ℕ → FindAnswer

pub data ExpireAnswer : Type 0 where
  offer_revoked : ExpireAnswer
  already_assigned : ℕ → ExpireAnswer

pub data StallAnswer : Type 0 where
  stall_revoked : StallAnswer
  already_picked_up : StallAnswer

-- One attempt: how long each activity takes and what it answers, when the accept of its offer comes
-- and from whom, and when the pickup comes.
pub record Round : Type 0 where
  pub find_takes : ℕ
  pub find : FindAnswer
  pub accepted : Option (ℕ × ℕ)
  pub expire_takes : ℕ
  pub expire : ExpireAnswer
  pub record_takes : ℕ
  pub picked_up : Option ℕ
  pub stall_takes : ℕ
  pub stall : StallAnswer

-- The activities that the workflow runs, with their answers.
pub data Step : Type 0 where
  finds : ℕ → List ℕ → FindAnswer → Step
  expires : ℕ → ℕ → ExpireAnswer → Step
  records : ℕ → Step
  unassigns : ℕ → StallAnswer → Step

pub record Cascade : Type 0 where
  pub now : ℕ
  pub attempt : ℕ
  pub exclude : List ℕ
  pub log : List Step

abbrev pub window_of : DeliveryInput → ℕ → ℕ
window_of input attempt =
    if nat_beq attempt 1 then input.offer_first_timeout else input.offer_next_timeout

abbrev pub did : ℕ → Step → Cascade → Cascade
did takes step c = record c { now = c.now + takes; log = c.log ++ step ∷ [] }

abbrev pub waits : ℕ → Cascade → Cascade
waits takes c = record c { now = c.now + takes }

abbrev pub excludes : ℕ → Cascade → Cascade
excludes rider c = record c { exclude = c.exclude ++ rider ∷ [] }

-- What EXPIRE_OFFER answers: the rider who took the offer, or none when it was revoked.
abbrev pub expired_by : ℕ → ExpireAnswer → Cascade → Option ℕ × Cascade
expired_by candidate (already_assigned rider) c = (some rider, c)
expired_by candidate offer_revoked c = (none, excludes candidate c)

abbrev pub expired : ℕ → ℕ → Round → Cascade → Option ℕ × Cascade
expired offer_id candidate round c =
    expired_by candidate round.expire
      (did round.expire_takes (expires offer_id candidate round.expire) c)

-- The offer's window, with the accept's delay and its rider.
abbrev pub offer_window :
    DeliveryInput → ℕ → ℕ → Round → Option (ℕ × ℕ) → Cascade → Option ℕ × Cascade
offer_window input offer_id candidate round none c =
    expired offer_id candidate round (waits (window_of input c.attempt) c)
offer_window input offer_id candidate round (some (after, rider)) c =
    if ltb after (window_of input c.attempt)
    then (some rider, waits after c)
    else expired offer_id candidate round (waits (window_of input c.attempt) c)

-- What FIND_AND_OFFER answers; a city without candidates gets a fresh round.
abbrev pub found_by : DeliveryInput → Round → FindAnswer → Cascade → Option ℕ × Cascade
found_by input round found_nobody c =
    (none, record (waits input.no_candidates_retry c) { exclude = [] })
found_by input round (made_offer offer_id candidate) c =
    offer_window input offer_id candidate round round.accepted c

abbrev pub offer_round : DeliveryInput → Round → Cascade → Option ℕ × Cascade
offer_round input round c = found_by input round round.find (
    did round.find_takes (finds (c.attempt + 1) c.exclude round.find)
      (record c { attempt = c.attempt + 1 }))

-- What UNASSIGN_STALLED answers: the rider who has the food, or none when the job was revoked.
abbrev pub stalled_by : ℕ → StallAnswer → Cascade → Option ℕ × Cascade
stalled_by rider already_picked_up c = (some rider, c)
stalled_by rider stall_revoked c = (none, excludes rider c)

abbrev pub stalled : ℕ → Round → Cascade → Option ℕ × Cascade
stalled rider round c =
    stalled_by rider round.stall (did round.stall_takes (unassigns rider round.stall) c)

-- The pickup's window.
abbrev pub pickup_window : DeliveryInput → ℕ → Round → Option ℕ → Cascade → Option ℕ × Cascade
pickup_window input rider round none c = stalled rider round (waits input.pickup_timeout c)
pickup_window input rider round (some after) c =
    if ltb after input.pickup_timeout
    then (some rider, waits after c)
    else stalled rider round (waits input.pickup_timeout c)

abbrev pub pickup_round : DeliveryInput → ℕ → Round → Cascade → Option ℕ × Cascade
pickup_round input rider round c =
    pickup_window input rider round round.picked_up (did round.record_takes (records rider) c)

-- One turn of the loops: an offer, and the pickup of whoever took it.
abbrev pub picked : DeliveryInput → Round → Option ℕ × Cascade → Option ℕ × Cascade
picked input round (none, c) = (none, c)
picked input round (some rider, c) = pickup_round input rider round c

abbrev pub turn : DeliveryInput → Round → Cascade → Option ℕ × Cascade
turn input round c = picked input round (offer_round input round c)

-- `_assign`, with turns for fuel. The answer is the rider or none at the deadline; without fuel
-- there is no answer. The round of an attempt is found by its number.
unfoldable pub assign : ℕ → DeliveryInput → (ℕ → Round) → ℕ → Cascade → Option (Option ℕ × Cascade)
assign zero input rounds deadline c = none
assign (suc fuel) input rounds deadline c =
    let (rider, c') = turn input (rounds (c.attempt + 1)) c in
    let again = assign fuel input rounds deadline c' in
    if leb deadline c.now
    then some (none, c)
    else elim rider [ none ↦ again | some r ↦ some (some r, c') ]

abbrev pub starts : ℕ → Cascade
starts now = record { now = now; attempt = 0; exclude = []; log = [] }

pub data Outcome : Type 0 where
  no_rider : Outcome
  delivered : Outcome

-- `run` from the food's readiness on, with the two marks of the order as steps of their own.
pub data Mark : Type 0 where
  mark_picked_up mark_delivered : Mark

abbrev pub outcome_of : Option ℕ → Outcome × List Mark
outcome_of none = (no_rider, [])
outcome_of (some rider) = (delivered, mark_picked_up ∷ mark_delivered ∷ [])

unfoldable pub run_delivery : ℕ → DeliveryInput → (ℕ → Round) → ℕ → Option (Outcome × List Mark)
run_delivery fuel input rounds ready_at =
    elim (assign fuel input rounds (ready_at + input.no_rider_deadline) (starts ready_at)) [
      | none ↦ none
      | some (rider, c) ↦ some (outcome_of rider)
    ]
