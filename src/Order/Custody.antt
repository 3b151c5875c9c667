-- ===== src/Order/Custody.antt =====
-- Who has an order through the offer cascade of services/order/order/workflows.py, as an independent
-- account of the activities that the workflow runs.
use mathlib.Core.Option.{some-injective}
use smart_food_ops.Prelude.{
  ℕ, zero, suc, ◌≡◌, refl, sym, ◌∙◌, subst, Bool, true, false, ◌&&◌, Option, none, some, List, [],
  ◌∷◌, ◌++◌, leb, ltb, ◌+◌, nat_beq, nat_beq_refl, arith, if◌then◌else◌, Bool-cases, Option-cases,
  inl, inr, ◌⊎◌,
}
use smart_food_ops.Order.Attempts.{assign_over, assign_found, assign_again}
use smart_food_ops.Order.Cascade.{
  DeliveryInput, Round, Step, finds, expires, records, unassigns, FindAnswer, found_nobody,
  made_offer, ExpireAnswer, offer_revoked, already_assigned, StallAnswer, stall_revoked,
  already_picked_up, Cascade, did, waits, expired_by, expired, offer_window, found_by, offer_round,
  stalled_by, stalled, pickup_window, turn, picked, assign, window_of,
}

-- Nobody has it; one rider has an offer of it; a rider took it unheard; a rider has the job; a rider
-- has the food.
pub data Custody : Type 0 where
  nobody : Custody
  in_offer : ℕ → ℕ → Custody
  taken : ℕ → Custody
  has_job : ℕ → Custody
  has_food : ℕ → Custody

-- What an activity may be run on, and what it leaves; `none` is an activity out of place.
abbrev pub passes : Custody → Step → Option Custody
passes nobody (finds attempt exclude found_nobody) = some nobody
passes nobody (finds attempt exclude (made_offer offer_id rider)) = some (in_offer offer_id rider)
passes (in_offer offer_id rider) (expires offer_id' rider' answer) =
    if nat_beq offer_id offer_id' && nat_beq rider rider'
    then elim answer [ offer_revoked ↦ some nobody | already_assigned winner ↦ some (taken winner) ]
    else none
passes (in_offer offer_id rider) (records winner) = some (has_job winner)
passes (taken winner) (records rider) = if nat_beq winner rider then some (has_job rider) else none
passes (has_job rider) (unassigns rider' answer) =
    if nat_beq rider rider'
    then elim answer [ stall_revoked ↦ some nobody | already_picked_up ↦ some (has_food rider) ]
    else none
passes _ _ = none

unfoldable pub custody : Custody → List Step → Option Custody
custody k [] = some k
custody k (step ∷ steps) = elim (passes k step) [ none ↦ none | some k' ↦ custody k' steps ]

custody-append :
    (k k' : Custody) (steps : List Step) (step : Step)
    → custody k steps ≡ some k'
    → custody k (steps ++ step ∷ []) ≡ passes k' step
unfolding custody
custody-append k k' [] step h = elim (Option-cases (passes k' step)) [
  | inl stops ↦ ground (arith, h, stops)
  | inr (k'', next) ↦ ground (arith, h, next)
]
custody-append k k' (first ∷ steps) step h = elim (Option-cases (passes k first)) [
  | inl stops ↦ ground (arith, h, stops)
  | inr (k1, next) ↦ ground (arith, h, next, custody-append k1 k' steps step)
]

abbrev pub Holds : Cascade → Custody → Type 0
Holds c k = custody nobody c.log ≡ some k

did-Holds :
    (takes : ℕ) (step : Step) (c : Cascade) (k k' : Custody)
    → Holds c k
    → passes k step ≡ some k'
    → Holds (did takes step c) k'
did-Holds takes step c k k' h next = custody-append nobody k c.log step h ∙ next

-- The rider of the turn may be recorded.
abbrev Won : ℕ → Cascade → Type 0
Won rider c = (k : Custody) × Holds c k × (passes k (records rider) ≡ some (has_job rider))

abbrev Offered : Option ℕ × Cascade → Type 0
Offered (none, c) = Holds c nobody
Offered (some rider, c) = Won rider c

expired_by-Offered :
    (offer_id candidate takes : ℕ) (answer : ExpireAnswer) (c : Cascade)
    → Holds c (in_offer offer_id candidate)
    → Offered (expired_by candidate answer (did takes (expires offer_id candidate answer) c))
expired_by-Offered offer_id candidate takes offer_revoked c h =
    did-Holds takes (expires offer_id candidate offer_revoked) c (in_offer offer_id candidate)
      nobody h (ground (arith, nat_beq_refl offer_id, nat_beq_refl candidate))
expired_by-Offered offer_id candidate takes (already_assigned rider) c h = (
  taken rider,
  did-Holds takes (expires offer_id candidate (already_assigned rider)) c
      (in_offer offer_id candidate) (taken rider) h
      (ground (arith, nat_beq_refl offer_id, nat_beq_refl candidate)),
  ground (arith, nat_beq_refl rider),
)

offer_window-Offered :
    (input : DeliveryInput) (offer_id candidate : ℕ) (round : Round) (accepted : Option (ℕ × ℕ))
    (c : Cascade)
    → Holds c (in_offer offer_id candidate)
    → Offered (offer_window input offer_id candidate round accepted c)
offer_window-Offered input offer_id candidate round none c h =
    expired_by-Offered offer_id candidate round.expire_takes round.expire
      (waits (window_of input c.attempt) c) h
offer_window-Offered input offer_id candidate round (some (after, rider)) c h =
    in_time (ltb after (window_of input c.attempt))
  where
    in_time :
        (soon : Bool)
        → Offered (
            if soon
            then (some rider, waits after c)
            else expired offer_id candidate round (waits (window_of input c.attempt) c))
    in_time true = (in_offer offer_id candidate, h, refl)
    in_time false =
        expired_by-Offered offer_id candidate round.expire_takes round.expire
          (waits (window_of input c.attempt) c) h

found_by-Offered :
    (input : DeliveryInput) (round : Round) (takes attempt : ℕ) (exclude : List ℕ)
    (answer : FindAnswer) (c : Cascade)
    → Holds c nobody
    → Offered (found_by input round answer (did takes (finds attempt exclude answer) c))
found_by-Offered input round takes attempt exclude found_nobody c h =
    did-Holds takes (finds attempt exclude found_nobody) c nobody nobody h refl
found_by-Offered input round takes attempt exclude (made_offer offer_id candidate) c h =
    offer_window-Offered input offer_id candidate round round.accepted
      (did takes (finds attempt exclude (made_offer offer_id candidate)) c)
      (did-Holds takes (finds attempt exclude (made_offer offer_id candidate)) c nobody
        (in_offer offer_id candidate) h refl)

-- The rider of the answer has the job or the food; with no rider nobody has the order.
abbrev pub Ends : Option ℕ × Cascade → Type 0
Ends (none, c) = Holds c nobody
Ends (some rider, c) = Holds c (has_job rider) ⊎ Holds c (has_food rider)

stalled_by-Ends :
    (rider takes : ℕ) (answer : StallAnswer) (c : Cascade)
    → Holds c (has_job rider)
    → Ends (stalled_by rider answer (did takes (unassigns rider answer) c))
stalled_by-Ends rider takes already_picked_up c h = inr (
    did-Holds takes (unassigns rider already_picked_up) c (has_job rider) (has_food rider) h
      (ground (arith, nat_beq_refl rider)))
stalled_by-Ends rider takes stall_revoked c h =
    did-Holds takes (unassigns rider stall_revoked) c (has_job rider) nobody h
      (ground (arith, nat_beq_refl rider))

pickup_window-Ends :
    (input : DeliveryInput) (rider : ℕ) (round : Round) (picked_up : Option ℕ) (c : Cascade)
    → Holds c (has_job rider)
    → Ends (pickup_window input rider round picked_up c)
pickup_window-Ends input rider round none c h =
    stalled_by-Ends rider round.stall_takes round.stall (waits input.pickup_timeout c) h
pickup_window-Ends input rider round (some after) c h = in_time (ltb after input.pickup_timeout)
  where
    in_time :
        (soon : Bool)
        → Ends (
            if soon
            then (some rider, waits after c)
            else stalled rider round (waits input.pickup_timeout c))
    in_time true = inl h
    in_time false =
        stalled_by-Ends rider round.stall_takes round.stall (waits input.pickup_timeout c) h

picked-Ends :
    (input : DeliveryInput) (round : Round) (r : Option ℕ × Cascade)
    → Offered r
    → Ends (picked input round r)
picked-Ends input round (none, c) h = h
picked-Ends input round (some rider, c) (k, h, next) =
    pickup_window-Ends input rider round round.picked_up (did round.record_takes (records rider) c)
      (did-Holds round.record_takes (records rider) c k (has_job rider) h next)

turn-Ends :
    (input : DeliveryInput) (round : Round) (c : Cascade)
    → Holds c nobody
    → Ends (turn input round c)
turn-Ends input round c h = picked-Ends input round (offer_round input round c) (
    found_by-Offered input round round.find_takes (c.attempt + 1) c.exclude round.find
      (record c { attempt = c.attempt + 1 }) h)

-- However the activities answer and whenever the signals come, and with any fuel: the activities that
-- the cascade runs are each in place, so an offer is made only while nobody has the order, only the
-- offer that was made is expired, and only the rider who has the job is unassigned. When the answer
-- is a rider, that rider has the job or the food at the end; when it is none, nobody has.
pub assign-Ends :
    (fuel : ℕ) (input : DeliveryInput) (rounds : ℕ → Round) (deadline : ℕ) (c : Cascade)
    (result : Option ℕ × Cascade)
    → Holds c nobody
    → assign fuel input rounds deadline c ≡ some result
    → Ends result
unfolding assign
assign-Ends zero input rounds deadline c result h returned = cc
assign-Ends (suc fuel) input rounds deadline c result h returned =
    let r = turn input (rounds (c.attempt + 1)) c in
    let ends = turn-Ends input (rounds (c.attempt + 1)) c h in
    elim (Bool-cases (leb deadline c.now)) [
      | inl over ↦
          subst Ends
            (answer_of (none, c) result
              (sym (assign_over input rounds deadline fuel c over) ∙ returned))
            h
      | inr early ↦ elim (Option-cases r.0) [
        | inr (rider, found) ↦
            subst Ends
              (answer_of (some rider, r.1) result
                (sym (assign_found input rounds deadline fuel c rider early found) ∙ returned))
              (subst (λ o. Ends (o, r.1)) found ends)
        | inl lost ↦
            assign-Ends fuel input rounds deadline r.1 result (subst (λ o. Ends (o, r.1)) lost ends)
              (sym (assign_again input rounds deadline fuel c early lost) ∙ returned)
      ]
    ]
  where
    answer_of : (a b : Option ℕ × Cascade) → some a ≡ some b → a ≡ b
    answer_of a b eq = some-injective a b eq
