-- ===== src/Order/Attempts.antt =====
-- The offer cascade of services/order/order/workflows.py ends: the deadline bounds its attempts.
use smart_food_ops.Prelude.{
  ℕ, zero, suc, ◌+◌, ◌*◌, ◌≤◌, ◌≡◌, refl, ◌∙◌, true, false, Option, none, some, leb, le→leb, arith,
  Bool-cases, Option-cases, inl, inr,
}
use smart_food_ops.Order.Cascade.{
  DeliveryInput, Round, Cascade, offer_round, pickup_round, turn, picked, assign,
}

-- The slot is at most every wait after which the cascade tries again.
pub record IsSlot (slot : ℕ) (input : DeliveryInput) : Type 0 where
  pub first : slot ≤ input.offer_first_timeout
  pub next : slot ≤ input.offer_next_timeout
  pub retry : slot ≤ input.no_candidates_retry
  pub pickup : slot ≤ input.pickup_timeout

next_slot : (fuel slot : ℕ) → suc fuel * slot ≡ fuel * slot + slot
next_slot fuel slot = ground arith

module _ (input : DeliveryInput) (rounds : ℕ → Round) (deadline : ℕ) where
  pub assign_over :
      (fuel : ℕ) (c : Cascade)
      → leb deadline c.now ≡ true
      → assign (suc fuel) input rounds deadline c ≡ some (none, c)
  unfolding assign
  assign_over fuel c over = ground (arith, over)

  pub assign_found :
      (fuel : ℕ) (c : Cascade) (rider : ℕ)
      → leb deadline c.now ≡ false
      → (turn input (rounds (c.attempt + 1)) c).0 ≡ some rider
      → assign (suc fuel) input rounds deadline c
        ≡ some (some rider, (turn input (rounds (c.attempt + 1)) c).1)
  unfolding assign
  assign_found fuel c rider early found = ground (arith, early, found)

  pub assign_again :
      (fuel : ℕ) (c : Cascade)
      → leb deadline c.now ≡ false
      → (turn input (rounds (c.attempt + 1)) c).0 ≡ none
      → assign (suc fuel) input rounds deadline c
        ≡ assign fuel input rounds deadline (turn input (rounds (c.attempt + 1)) c).1
  unfolding assign
  assign_again fuel c early lost = ground (arith, early, lost)

module _ (input : DeliveryInput) (slot : ℕ) (fits : IsSlot slot input) where
  offer_round-time :
      (round : Round) (c : Cascade)
      → (offer_round input round c).0 ≡ none
      → c.now + slot ≤ (offer_round input round c).1.now
  offer_round-time round c lost = ground (arith, fits.first, fits.next, fits.retry)

  offer_round-later : (round : Round) (c : Cascade) → c.now ≤ (offer_round input round c).1.now
  offer_round-later round c = ground arith

  offer_round-attempt :
      (round : Round) (c : Cascade) → (offer_round input round c).1.attempt ≡ c.attempt + 1
  offer_round-attempt round c = ground arith

  pickup_round-time :
      (rider : ℕ) (round : Round) (c : Cascade)
      → (pickup_round input rider round c).0 ≡ none
      → c.now + slot ≤ (pickup_round input rider round c).1.now
  pickup_round-time rider round c lost = ground (arith, fits.pickup)

  pickup_round-attempt :
      (rider : ℕ) (round : Round) (c : Cascade)
      → (pickup_round input rider round c).1.attempt ≡ c.attempt
  pickup_round-attempt rider round c = ground arith

  picked-time :
      (round : Round) (base : ℕ) (r : Option ℕ × Cascade)
      → (r.0 ≡ none → base + slot ≤ r.1.now)
      → base ≤ r.1.now
      → (picked input round r).0 ≡ none
      → base + slot ≤ (picked input round r).1.now
  picked-time round base (none, c) early later lost = early lost
  picked-time round base (some rider, c) early later lost =
      omega (arith, later, pickup_round-time rider round c lost)

  picked-attempt :
      (round : Round) (r : Option ℕ × Cascade) → (picked input round r).1.attempt ≡ r.1.attempt
  picked-attempt round (none, c) = refl
  picked-attempt round (some rider, c) = pickup_round-attempt rider round c

  turn-time :
      (round : Round) (c : Cascade)
      → (turn input round c).0 ≡ none
      → c.now + slot ≤ (turn input round c).1.now
  turn-time round c lost =
      picked-time round c.now (offer_round input round c) (offer_round-time round c)
        (offer_round-later round c) lost

  turn-attempt : (round : Round) (c : Cascade) → (turn input round c).1.attempt ≡ c.attempt + 1
  turn-attempt round c =
      picked-attempt round (offer_round input round c) ∙ offer_round-attempt round c

  module _ (rounds : ℕ → Round) (deadline : ℕ) where
    -- When no wait after which the cascade tries again is shorter than a slot, it answers, whatever
    -- the activities answer and however long they take: with as many turns as slots up to the
    -- deadline, and one more, and with at most so many attempts as there are slots.
    pub assign_ends :
        (fuel : ℕ) (c : Cascade)
        → deadline ≤ c.now + fuel * slot
        → (result : Option ℕ × Cascade) × (assign (suc fuel) input rounds deadline c ≡ some result)
          × (result.1.attempt ≤ c.attempt + fuel)
    assign_ends zero c enough = (
      (none, c),
      assign_over input rounds deadline zero c (le→leb deadline c.now (ground arith)),
      omega arith,
    )
    assign_ends (suc fuel) c enough =
        let round = rounds (c.attempt + 1) in
        let c' = (turn input round c).1 in
        let attempts = turn-attempt round c in
        elim (Bool-cases (leb deadline c.now)) [
          | inl over ↦ ((none, c), assign_over input rounds deadline (suc fuel) c over, omega arith)
          | inr early ↦ elim (Option-cases (turn input round c).0) [
            | inr (rider, found) ↦ (
              (some rider, c'),
              assign_found input rounds deadline (suc fuel) c rider early found,
              omega (arith, attempts),
            )
            | inl lost ↦
                let (result, eq, bound) =
                  assign_ends fuel c'
                    (omega (arith, enough, next_slot fuel slot, turn-time round c lost)) in
                (
                  result,
                  assign_again input rounds deadline (suc fuel) c early lost ∙ eq,
                  omega (arith, attempts, bound),
                )
          ]
        ]
