-- ===== src/Payment/Rows.antt =====
-- services/payment/payment/db.py, adapters/repo.py and domain/ports.py: the tables, the statements
-- on them, and what the gateway answers. Identifiers are only compared, so they are numbers; the
-- columns that are written and never read (timestamps, random ids) are left out.
use smart_food_ops.Prelude.{
  ℕ, ◌≡◌, Bool, true, false, ◌&&◌, Option, none, List, [], ◌∷◌, ltb, nat_beq, nat_eq, KeyEq, ◌↔◌,
  arith, if◌then◌else◌,
}
use smart_food_ops.Table.{Table, insert_new, update_where}
use smart_food_ops.Idempotency.Rows.{KeyTable}

pub data PaymentStatus : Type 0 where
  authorized declined captured voided refunded : PaymentStatus

abbrev pub status_beq : PaymentStatus → PaymentStatus → Bool
status_beq authorized authorized = true
status_beq declined declined = true
status_beq captured captured = true
status_beq voided voided = true
status_beq refunded refunded = true
status_beq _ _ = false

pub record Payment : Type 0 where
  pub status : PaymentStatus
  pub amount_cents : ℕ
  pub currency : ℕ
  pub card_token : ℕ
  pub payment_intent_id : Option ℕ

pub data MoneyOp : Type 0 where
  auth capture void refund : MoneyOp

abbrev pub op_beq : MoneyOp → MoneyOp → Bool
op_beq auth auth = true
op_beq capture capture = true
op_beq void void = true
op_beq refund refund = true
op_beq _ _ = false

-- The key "{order_id}:{op}", of our store and of the gateway alike.
abbrev pub MoneyKey : Type 0
MoneyKey = ℕ × MoneyOp

abbrev pub key_beq : MoneyKey → MoneyKey → Bool
key_beq (o, p) (u, q) = nat_beq o u && op_beq p q

pub key_beq_iff : (j k : MoneyKey) → (key_beq j k ≡ true) ↔ (j ≡ k)
key_beq_iff (o, p) (u, q) = ground arith

instance abbrev pub key_eq : KeyEq MoneyKey
key_eq = record { same = key_beq; same_iff = key_beq_iff }

pub data Account : Type 0 where
  customer platform_cash : Account

abbrev pub account_beq : Account → Account → Bool
account_beq customer customer = true
account_beq platform_cash platform_cash = true
account_beq _ _ = false

pub record Entry : Type 0 where
  pub order_id : ℕ
  pub op_key : MoneyKey
  pub account : Account
  pub debit_cents : ℕ
  pub credit_cents : ℕ
  pub currency : ℕ

pub data EventType : Type 0 where
  payment_authorized payment_captured refund_processed : EventType

pub record Event : Type 0 where
  pub event_type : EventType
  pub order_id : ℕ
  pub status : PaymentStatus
  pub amount_cents : ℕ
  pub currency : ℕ
  pub payment_intent_id : Option ℕ

-- A response body: a payment row, the short form of a lifecycle operation, or the decline envelope.
pub data Body : Type 0 where
  described : ℕ → PaymentStatus → ℕ → Option ℕ → Body
  moved : ℕ → PaymentStatus → Body
  decline_body : Body

-- The database, and the requests that the gateway was sent, by their keys.
pub record World : Type 0 where
  pub payments : Table ℕ Payment
  pub ledger : List Entry
  pub outbox : List Event
  pub keys : KeyTable MoneyKey Body
  pub calls : List MoneyKey

-- `insert_payment`, with the primary key and the check `amount_cents >= 1`.
abbrev pub insert_payment : ℕ → Payment → Table ℕ Payment → Option (Table ℕ Payment)
insert_payment order_id row payments =
    if ltb row.amount_cents 1 then none else insert_new order_id row payments

-- `transition_payment`
abbrev pub transition_payment :
    ℕ → PaymentStatus → PaymentStatus → Table ℕ Payment → Bool × Table ℕ Payment
transition_payment order_id expected target payments =
    update_where order_id (λ row. status_beq row.status expected)
      (λ row. record row { status = target }) payments

-- `insert_ledger_pair`: the two entries of one movement.
abbrev pub ledger_pair : ℕ → MoneyOp → Account → Account → ℕ → ℕ → List Entry
ledger_pair order_id op debit_account credit_account amount_cents currency =
    record {
      order_id = order_id;
      op_key = (order_id, op);
      account = debit_account;
      debit_cents = amount_cents;
      credit_cents = 0;
      currency = currency;
    }
    ∷ record {
      order_id = order_id;
      op_key = (order_id, op);
      account = credit_account;
      debit_cents = 0;
      credit_cents = amount_cents;
      currency = currency;
    }
    ∷ []

-- `authorize` of the gateway port: approved or declined with the gateway's reference, or no answer.
pub data AuthAnswer : Type 0 where
  result : Bool → ℕ → AuthAnswer
  psp_unavailable : AuthAnswer

-- `capture`, `void` and `refund` of the gateway port, with the port's exceptions.
pub data CallAnswer : Type 0 where
  done psp_unavailable psp_unknown_ref psp_state_conflict : CallAnswer
