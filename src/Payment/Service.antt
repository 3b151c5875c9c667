-- ===== src/Payment/Service.antt =====
-- services/payment/payment/domain/service.py. Each transaction is one step; what other instances
-- commit between two transactions of a call, and what the gateway answers, are arguments.
use smart_food_ops.Prelude.{
  ℕ, Bool, true, false, Option, none, some, List, [], ◌∷◌, ◌++◌, if◌then◌else◌, nat_eq,
}
use smart_food_ops.Table.{lookup}
use smart_food_ops.Idempotency.Rows.{ReserveOutcome, Ttl, Schedule, alone}
use smart_food_ops.Idempotency.Store.{reserve, complete, release}
use smart_food_ops.Payment.Rows.{
  PaymentStatus, authorized, declined, captured, voided, refunded, status_beq, Payment, MoneyOp,
  auth, MoneyKey, key_eq, Account, customer, platform_cash, Entry, Event, EventType,
  payment_authorized, payment_captured, refund_processed, Body, described, moved, decline_body,
  World, insert_payment, transition_payment, ledger_pair, AuthAnswer, CallAnswer, op_beq,
}

pub data Error : Type 0 where
  money_op_in_progress money_key_mismatch payment_state_conflict : Error
  psp_unavailable assertion_error : Error

-- A `PaymentOutcome` (status code, body, replayed) or an exception. A replay hands on the stored
-- columns, which are nullable.
pub data Answer : Type 0 where
  outcome : Option ℕ → Option Body → Bool → Answer
  raised : Error → Answer

-- What `_op_hash` joins.
pub data HashParts : Type 0 where
  auth_parts : ℕ → ℕ → ℕ → HashParts
  op_parts : MoneyOp → ℕ → HashParts

-- `op_hash` is the digest of the joined parts.
pub record Config : Type 0 where
  pub ttl : Ttl
  pub op_hash : HashParts → ℕ

-- What others commit while one call runs.
pub record Others : Type 0 where
  pub schedule : Schedule MoneyKey Body
  pub after_reserve : World → World
  pub during_call : World → World

-- No other instance is at work.
abbrev pub nobody : ℕ → Others
nobody now = record { schedule = alone now; after_reserve = λ w. w; during_call = λ w. w }

-- `_reserve`: nothing, to go on, or what to return or raise.
abbrev pub refusal : ReserveOutcome Body → Option Answer
refusal ReserveOutcome.reserved = none
refusal (ReserveOutcome.replay status body) = some (outcome status body true)
refusal ReserveOutcome.in_progress = some (raised money_op_in_progress)
refusal ReserveOutcome.body_mismatch = some (raised money_key_mismatch)

-- What follows `_reserve`: the refusal, or the rest of the call.
abbrev pub unless : Option Answer → World → (World → Answer × World) → Answer × World
unless (some refused) held rest = (refused, held)
unless none held rest = rest held

abbrev pub complete_key : MoneyKey → ℕ → Body → World → World
complete_key key status body w = record w { keys = complete key status body w.keys }

abbrev pub release_key : MoneyKey → World → World
release_key key w = record w { keys = release key w.keys }

-- `_describe`
abbrev pub describe : ℕ → Payment → ℕ × Body
describe order_id row =
    if status_beq row.status declined
    then (402, decline_body)
    else (200, described order_id row.status row.amount_cents row.payment_intent_id)

-- The convergence paths: answer by the row that is there.
unfoldable pub converge : MoneyKey → ℕ → World → Answer × World
converge key order_id w = elim (lookup order_id w.payments) [
  | none ↦ (raised assertion_error, w)
  | some row ↦
      let (status, body) = describe order_id row in
      (outcome (some status) (some body) false, complete_key key status body w)
]

-- The row and the events that an answered authorization writes.
abbrev pub authorization : ℕ → ℕ → ℕ → Bool → ℕ → Payment
authorization amount_cents currency card_token approved psp_ref = record {
  status = if approved then authorized else declined;
  amount_cents = amount_cents;
  currency = currency;
  card_token = card_token;
  payment_intent_id = if approved then some psp_ref else none;
}

abbrev pub authorization_event : ℕ → ℕ → ℕ → Bool → ℕ → List Event
authorization_event order_id amount_cents currency false psp_ref = []
authorization_event order_id amount_cents currency true psp_ref =
    record {
      event_type = payment_authorized;
      order_id = order_id;
      status = authorized;
      amount_cents = amount_cents;
      currency = currency;
      payment_intent_id = some psp_ref;
    }
    ∷ []

-- The transaction of `authorize` after the gateway's answer.
unfoldable pub record_authorization : ℕ → ℕ → ℕ → ℕ → Bool → ℕ → World → Answer × World
unfolding converge
record_authorization order_id amount_cents currency card_token approved psp_ref w =
    let status : ℕ = if approved then 200 else 402 in
    let body =
      if approved
      then described order_id authorized amount_cents (some psp_ref)
      else decline_body in
    elim (insert_payment order_id (authorization amount_cents currency card_token approved psp_ref)
      w.payments) [
        | none ↦ converge (order_id, auth) order_id w
        | some payments ↦ (
          outcome (some status) (some body) false,
          complete_key (order_id, auth) status body
              (record w {
                payments = payments;
                outbox =
                    w.outbox ++ authorization_event order_id amount_cents currency approved psp_ref;
              }),
        )
      ]

-- The gateway call of `authorize` and what follows each answer.
unfoldable pub call_and_record :
    AuthAnswer → (World → World) → ℕ → ℕ → ℕ → ℕ → World → Answer × World
unfolding record_authorization
call_and_record answer during_call order_id amount_cents currency card_token w =
    let key : MoneyKey = (order_id, auth) in
    let called = during_call (record w { calls = w.calls ++ key ∷ [] }) in
    elim answer [
      | AuthAnswer.psp_unavailable ↦ (raised psp_unavailable, release_key key called)
      | AuthAnswer.result approved psp_ref ↦
          record_authorization order_id amount_cents currency card_token approved psp_ref called
    ]

unfoldable pub authorize : Config → Others → AuthAnswer → ℕ → ℕ → ℕ → ℕ → World → Answer × World
authorize cfg others answer order_id amount_cents currency card_token w =
    let key : MoneyKey = (order_id, auth) in
    let (verdict, keys) =
      reserve cfg.ttl others.schedule key (cfg.op_hash (auth_parts order_id amount_cents currency))
        w.keys in
    unless (refusal verdict) (record w { keys = keys })
      (λ held.
        call_and_record answer others.during_call order_id amount_cents currency card_token
          (others.after_reserve held))

-- The arguments that `capture`, `void` and `refund` hand to `_lifecycle`.
pub record Move : Type 0 where
  pub op : MoneyOp
  pub expected : PaymentStatus
  pub target : PaymentStatus
  pub ledger : Option (Account × Account)
  pub event_type : Option EventType

abbrev pub capture : Move
capture = record {
  op = MoneyOp.capture;
  expected = authorized;
  target = captured;
  ledger = some (customer, platform_cash);
  event_type = some payment_captured;
}

abbrev pub void : Move
void = record {
  op = MoneyOp.void;
  expected = authorized;
  target = voided;
  ledger = none;
  event_type = none;
}

abbrev pub refund : Move
refund = record {
  op = MoneyOp.refund;
  expected = captured;
  target = refunded;
  ledger = some (platform_cash, customer);
  event_type = some refund_processed;
}

-- The entries and the event of an applied move; the amount is that of the row that was read.
abbrev pub movement : Move → ℕ → Payment → List Entry
movement move order_id row = elim move.ledger [
  | none ↦ []
  | some (debit_account, credit_account) ↦
      ledger_pair order_id move.op debit_account credit_account row.amount_cents row.currency
]

abbrev pub announcement : Move → ℕ → Payment → List Event
announcement move order_id row = elim move.event_type [
  | none ↦ []
  | some event_type ↦
      record {
        event_type = event_type;
        order_id = order_id;
        status = move.target;
        amount_cents = row.amount_cents;
        currency = row.currency;
        payment_intent_id = none;
      }
      ∷ []
]

-- The last transaction of `_lifecycle`; `row` is the payment as it was read before the call.
unfoldable pub settle : Move → ℕ → Payment → World → Answer × World
unfolding converge
settle move order_id row w =
    let key : MoneyKey = (order_id, move.op) in
    let body = moved order_id move.target in
    let (applied, payments) = transition_payment order_id move.expected move.target w.payments in
    if applied
    then (
      outcome (some 200) (some body) false,
      complete_key key 200 body (record w {
        payments = payments;
        ledger = w.ledger ++ movement move order_id row;
        outbox = w.outbox ++ announcement move order_id row;
      }),
    )
    else converge key order_id w

-- The gateway call and what follows each of its answers.
unfoldable pub call_and_settle :
    CallAnswer → (World → World) → Move → ℕ → Payment → World → Answer × World
unfolding settle
call_and_settle answer during_call move order_id row w =
    let key : MoneyKey = (order_id, move.op) in
    let called = during_call (record w { calls = w.calls ++ key ∷ [] }) in
    elim answer [
      | CallAnswer.done ↦ settle move order_id row called
      | CallAnswer.psp_unavailable ↦ (raised psp_unavailable, release_key key called)
      | CallAnswer.psp_unknown_ref ↦
          if op_beq move.op MoneyOp.void
          then settle move order_id row called
          else (raised payment_state_conflict, release_key key called)
      | CallAnswer.psp_state_conflict ↦ (raised payment_state_conflict, release_key key called)
    ]

-- `_lifecycle` once it holds its key: what the stored row calls for.
unfoldable pub proceed : CallAnswer → (World → World) → Move → ℕ → World → Answer × World
unfolding call_and_settle converge
proceed answer during_call move order_id w =
    let key : MoneyKey = (order_id, move.op) in
    elim (lookup order_id w.payments) [
      | none ↦ (raised payment_state_conflict, release_key key w)
      | some row ↦
          if status_beq row.status move.target
          then converge key order_id w
          else if status_beq row.status move.expected
          then call_and_settle answer during_call move order_id row w
          else (raised payment_state_conflict, release_key key w)
    ]

-- `_lifecycle`
unfoldable pub lifecycle : Config → Others → CallAnswer → Move → ℕ → World → Answer × World
lifecycle cfg others answer move order_id w =
    let key : MoneyKey = (order_id, move.op) in
    let (verdict, keys) =
      reserve cfg.ttl others.schedule key (cfg.op_hash (op_parts move.op order_id)) w.keys in
    unless (refusal verdict) (record w { keys = keys })
      (λ held. proceed answer others.during_call move order_id (others.after_reserve held))
