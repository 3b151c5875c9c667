-- ===== src/Payment/Errors.antt =====
-- What a call that raises, and an authorization of a known order, leave alone.
use smart_food_ops.Prelude.{ℕ, ◌≡◌, false, Option, none, some, arith, nat_eq, refl, subst}
use smart_food_ops.Table.{lookup}
use smart_food_ops.Payment.Rows.{
  PaymentStatus, Payment, World, key_eq, MoneyOp, CallAnswer, AuthAnswer, moved,
}
use smart_food_ops.Idempotency.Rows.{alone}
use smart_food_ops.Idempotency.Store.{reserve}
use smart_food_ops.Payment.Service.{
  Config, nobody, Move, Answer, outcome, raised, Error, payment_state_conflict, lifecycle, proceed,
  refusal, authorize, call_and_record, unless, void, capture, refund, op_parts, auth_parts,
}

abbrev SameMoney : World → World → Type 0
SameMoney w w' = (w'.payments ≡ w.payments) × (w'.ledger ≡ w.ledger) × (w'.outbox ≡ w.outbox)

-- An exception comes with no change to the money tables.
abbrev Keeps : World → Answer × World → Type 0
Keeps w (outcome _ _ _, w') = Unit
Keeps w (raised _, w') = SameMoney w w'

unless-Keeps :
    (refused : Option Answer) (w held : World) (rest : World → Answer × World)
    → SameMoney w held
    → Keeps held (rest held)
    → Keeps w (unless refused held rest)
unless-Keeps none w held rest h k = ground arith
unless-Keeps (some a) w held rest h k = ground arith

proceed-Keeps :
    (answer : CallAnswer) (move : Move) (order_id : ℕ) (w : World)
    → Keeps w (proceed answer (λ u. u) move order_id w)
unfolding proceed
proceed-Keeps answer move order_id w = ground arith

lifecycle-Keeps :
    (cfg : Config) (answer : CallAnswer) (move : Move) (now order_id : ℕ) (w : World)
    → Keeps w (lifecycle cfg (nobody now) answer move order_id w)
unfolding lifecycle
lifecycle-Keeps cfg answer move now order_id w =
    let (verdict, keys) =
      reserve cfg.ttl (alone now) (order_id, move.op) (cfg.op_hash (op_parts move.op order_id))
        w.keys in
    let held : World = record w { keys = keys } in
    unless-Keeps (refusal verdict) w held (λ u. proceed answer (λ v. v) move order_id u)
      (refl, refl, refl) (proceed-Keeps answer move order_id held)

-- A capture, void or refund that raises has changed no payment, no ledger entry and no event.
pub raised_keeps_money :
    (cfg : Config) (answer : CallAnswer) (move : Move) (now order_id : ℕ) (error : Error)
    (w w' : World)
    → lifecycle cfg (nobody now) answer move order_id w ≡ (raised error, w')
    → (w'.payments ≡ w.payments) × (w'.ledger ≡ w.ledger) × (w'.outbox ≡ w.outbox)
raised_keeps_money cfg answer move now order_id error w w' h =
    subst (Keeps w) h (lifecycle-Keeps cfg answer move now order_id w)

-- The same for the transactions of an authorization of an order that has a payment row.
record-Keeps :
    (order_id amount_cents currency card_token : ℕ) (answer : AuthAnswer) (row : Payment)
    (w : World)
    → lookup order_id w.payments ≡ some row
    → SameMoney w (call_and_record answer (λ u. u) order_id amount_cents currency card_token w).1
unfolding call_and_record
record-Keeps order_id amount_cents currency card_token answer row w found = ground arith

unless-SameMoney :
    (refused : Option Answer) (w : World) (rest : World → Answer × World)
    → SameMoney w (rest w).1
    → SameMoney w (unless refused w rest).1
unless-SameMoney none w rest h = h
unless-SameMoney (some a) w rest h = (refl, refl, refl)

-- An authorization of an order that has a payment row, whatever its amount and the gateway's
-- answer, overwrites nothing: payments, ledger and outbox stay as they are.
pub authorize_keeps_money :
    (cfg : Config) (answer : AuthAnswer) (now order_id amount_cents currency card_token : ℕ)
    (row : Payment) (w : World)
    → lookup order_id w.payments ≡ some row
    → let w' = (authorize cfg (nobody now) answer order_id amount_cents currency card_token w).1 in
      (w'.payments ≡ w.payments) × (w'.ledger ≡ w.ledger) × (w'.outbox ≡ w.outbox)
unfolding authorize
authorize_keeps_money cfg answer now order_id amount_cents currency card_token row w found =
    let (verdict, keys) =
      reserve cfg.ttl (alone now) (order_id, MoneyOp.auth)
        (cfg.op_hash (auth_parts order_id amount_cents currency)) w.keys in
    let held : World = record w { keys = keys } in
    unless-SameMoney (refusal verdict) held
      (λ u. call_and_record answer (λ v. v) order_id amount_cents currency card_token u)
      (record-Keeps order_id amount_cents currency card_token answer row held found)

-- Once a void, capture or refund of an authorized payment holds its key, a gateway that does not
-- know the reference lets the void through, and is a state conflict for the other two.
pub unknown_ref_converges_void :
    (order_id : ℕ) (row : Payment) (w : World)
    → lookup order_id w.payments ≡ some row
    → row.status ≡ PaymentStatus.authorized
    → ((proceed CallAnswer.psp_unknown_ref (λ u. u) void order_id w).0
        ≡ outcome (some 200) (some (moved order_id PaymentStatus.voided)) false)
      × ((proceed CallAnswer.psp_unknown_ref (λ u. u) capture order_id w).0
          ≡ raised payment_state_conflict)
      × ((proceed CallAnswer.psp_unknown_ref (λ u. u) refund order_id w).0
          ≡ raised payment_state_conflict)
unfolding proceed
unknown_ref_converges_void order_id row w found is_authorized = ground arith
