-- ===== src/Payment/Tests.antt =====
-- The service on concrete calls: order 1 costs 2500 cents, and the digest of the parts is a number
-- that tells the operations of one order apart.
use smart_food_ops.Prelude.{ℕ, ◌+◌, ◌*◌, ◌≡◌, refl, true, some, List, [], ◌∷◌, nat_eq, arith, All}
use smart_food_ops.Table.{lookup, insert, erase}
use smart_food_ops.Idempotency.Store.{reserve, complete, release}
use smart_food_ops.Payment.Rows.{
  PaymentStatus, authorized, captured, voided, refunded, Payment, World, AuthAnswer, CallAnswer,
  moved, MoneyOp, key_eq,
}
use smart_food_ops.Payment.Service.{
  Config, Others, nobody, HashParts, auth_parts, op_parts, capture, outcome, payment_state_conflict,
  authorize, call_and_record, lifecycle, proceed,
}
use smart_food_ops.Payment.Books.{entries_for, owed, Later-same}
use smart_food_ops.Payment.Ledger.{IsHonest, nobody-IsHonest}
use smart_food_ops.Payment.Replay.{lifecycle_replayed}
use smart_food_ops.Payment.Errors.{raised_keeps_money}
use smart_food_ops.Payment.History.{
  Call, authorizes, captures, voids, refunds, serve_call, serve, fresh, serve_call-Later,
  serve-ledger,
}

abbrev op_number : MoneyOp → ℕ
op_number MoneyOp.auth = 1
op_number MoneyOp.capture = 2
op_number MoneyOp.void = 3
op_number MoneyOp.refund = 4

abbrev digest : HashParts → ℕ
digest (auth_parts order_id amount currency) = 1000 * order_id + amount
digest (op_parts op order_id) = 1000 * order_id + op_number op

abbrev cfg : Config
cfg = record { ttl = record { replay_ttl = 86400; in_progress_ttl = 300 }; op_hash = digest }

abbrev row : PaymentStatus → Payment
row status = record {
  status = status;
  amount_cents = 2500;
  currency = 840;
  card_token = 77;
  payment_intent_id = some 9;
}

abbrev in_state : PaymentStatus → World
in_state status = record fresh { payments = (1, row status) ∷ [] }

-- Another instance captures order 1 while the call is at the gateway.
abbrev rival : Others
rival = record (nobody 50) {
  during_call = λ w. serve_call cfg (nobody 50) (captures CallAnswer.done 1) w;
}

rival-IsHonest : IsHonest rival
rival-IsHonest = record {
  before = λ w. Later-same w w refl refl refl;
  during =
      λ w. serve_call-Later cfg (nobody 50) (captures CallAnswer.done 1) w (nobody-IsHonest 50);
}

abbrev calls : List (Others × Call)
calls =
    (nobody 10, authorizes (AuthAnswer.result true 9) 1 2500 840 77)
    ∷ (rival, voids CallAnswer.done 1)
    ∷ (nobody 60, refunds CallAnswer.done 1)
    ∷ []

calls-IsHonest : All (λ c. IsHonest c.0) calls
calls-IsHonest = (nobody-IsHonest 10, (rival-IsHonest, (nobody-IsHonest 60, tt)))

-- The void loses to the rival's capture, and the captured money is then refunded.
calls_refund : lookup 1 (serve cfg calls fresh).payments ≡ some (row refunded)
unfolding serve serve_call authorize call_and_record lifecycle proceed reserve lookup insert erase
    complete release
calls_refund = refl

serve-ledger_example :
    entries_for 1 (serve cfg calls fresh).ledger
    ≡ owed 1 (lookup 1 (serve cfg calls fresh).payments)
serve-ledger_example = serve-ledger cfg calls 1 calls-IsHonest

abbrev captured_once : World
captured_once = (lifecycle cfg (nobody 20) CallAnswer.done capture 1 (in_state authorized)).1

-- Order 2 is authorized meanwhile.
abbrev busy_since : World
busy_since = (authorize cfg (nobody 25) (AuthAnswer.result true 9) 2 900 840 78 captured_once).1

lifecycle_replayed_example :
    lifecycle cfg (nobody 30) CallAnswer.psp_unavailable capture 1 busy_since
    ≡ (outcome (some 200) (some (moved 1 captured)) true, busy_since)
unfolding lifecycle proceed reserve lookup insert erase complete authorize call_and_record
lifecycle_replayed_example =
    lifecycle_replayed cfg CallAnswer.done capture 1 20 30 200 (moved 1 captured)
      CallAnswer.psp_unavailable (in_state authorized) captured_once busy_since refl refl
      (omega arith)

abbrev refused : World
refused = (lifecycle cfg (nobody 20) CallAnswer.done capture 1 (in_state voided)).1

raised_keeps_money_example :
    (refused.payments ≡ (in_state voided).payments)
    × (refused.ledger ≡ (in_state voided).ledger)
    × (refused.outbox ≡ (in_state voided).outbox)
unfolding lifecycle proceed reserve lookup insert erase release
raised_keeps_money_example =
    raised_keeps_money cfg CallAnswer.done capture 20 1 payment_state_conflict (in_state voided)
      refused refl
