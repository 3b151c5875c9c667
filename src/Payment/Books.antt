-- ===== src/Payment/Books.antt =====
-- The ledger is exactly what the payment rows say, and only ever grows.
use smart_food_ops.Prelude.{
  ℕ, ◌≤◌, ◌≡◌, refl, sym, ◌∙◌, ap, Bool, true, false, Option, none, some, List, [], ◌∷◌, ◌++◌,
  nat_beq, nat_eq, arith, if◌then◌else◌,
}
use mathlib.Core.List.{append_assoc, append-nil}
use smart_food_ops.Table.{lookup}
use smart_food_ops.Table.Rows.{AllRows}
use smart_food_ops.Payment.Rows.{
  PaymentStatus, authorized, declined, captured, voided, refunded, status_beq, Payment, MoneyOp,
  customer, platform_cash, Entry, Event, World, ledger_pair,
}

-- The entries of one order, oldest first.
unfoldable pub entries_for : ℕ → List Entry → List Entry
entries_for order_id [] = []
entries_for order_id (entry ∷ ledger) =
    let rest = entries_for order_id ledger in
    if nat_beq entry.order_id order_id then entry ∷ rest else rest

pub entries_for-append :
    (order_id : ℕ) (xs ys : List Entry)
    → entries_for order_id (xs ++ ys) ≡ entries_for order_id xs ++ entries_for order_id ys
unfolding entries_for
entries_for-append order_id [] ys = refl
entries_for-append order_id (x ∷ xs) ys = ground (arith, entries_for-append order_id xs ys)

-- The entries that a payment in this state has made.
abbrev pub owed_by : PaymentStatus → ℕ → ℕ → ℕ → List Entry
owed_by captured order_id amount currency =
    ledger_pair order_id MoneyOp.capture customer platform_cash amount currency
owed_by refunded order_id amount currency =
    ledger_pair order_id MoneyOp.capture customer platform_cash amount currency
    ++ ledger_pair order_id MoneyOp.refund platform_cash customer amount currency
owed_by _ order_id amount currency = []

abbrev pub owed : ℕ → Option Payment → List Entry
owed order_id none = []
owed order_id (some row) = owed_by row.status order_id row.amount_cents row.currency

abbrev pub IsCharged : Payment → Type 0
IsCharged row = 1 ≤ row.amount_cents

pub record Books (w : World) : Type 0 where
  pub exact :
      (order_id : ℕ) → entries_for order_id w.ledger ≡ owed order_id (lookup order_id w.payments)
  pub charged : AllRows IsCharged w.payments

-- Which states a payment may reach from which.
abbrev pub advances : PaymentStatus → PaymentStatus → Bool
advances authorized declined = false
advances authorized authorized = true
advances authorized captured = true
advances authorized voided = true
advances authorized refunded = true
advances captured captured = true
advances captured refunded = true
advances p q = status_beq p q

pub advances_refl : (p : PaymentStatus) → advances p p ≡ true
advances_refl p = ground arith

pub advances_trans :
    (p q r : PaymentStatus) → advances p q ≡ true → advances q r ≡ true → advances p r ≡ true
advances_trans p q r h k = ground arith

-- The row of an order, later: its state may have advanced, what was agreed is as it was.
pub record IsLaterRow (p q : Payment) : Type 0 where
  pub advanced : advances p.status q.status ≡ true
  pub amount_kept : q.amount_cents ≡ p.amount_cents
  pub currency_kept : q.currency ≡ p.currency
  pub intent_kept : q.payment_intent_id ≡ p.payment_intent_id

-- A world that the service may leave behind: rows are not lost, the ledger and the outbox are only
-- appended to, and balanced books stay balanced.
pub record Later (w w' : World) : Type 0 where
  pub rows :
      (order_id : ℕ) (p : Payment)
      → lookup order_id w.payments ≡ some p
      → (q : Payment) × (lookup order_id w'.payments ≡ some q) × IsLaterRow p q
  pub ledger_grows : (more : List Entry) × (w'.ledger ≡ w.ledger ++ more)
  pub outbox_grows : (more : List Event) × (w'.outbox ≡ w.outbox ++ more)
  pub books : Books w → Books w'

pub IsLaterRow-refl : (p : Payment) → IsLaterRow p p
IsLaterRow-refl p = ground (arith, advances_refl p.status)

pub IsLaterRow-trans : (p q r : Payment) → IsLaterRow p q → IsLaterRow q r → IsLaterRow p r
IsLaterRow-trans p q r h k = ground (arith, advances_trans p.status q.status r.status)

-- A step that leaves the three tables alone.
pub Later-same :
    (w w' : World)
    → w'.payments ≡ w.payments
    → w'.ledger ≡ w.ledger
    → w'.outbox ≡ w.outbox
    → Later w w'
Later-same w w' p l o = record {
  rows = λ order_id row h. (row, rw p h, IsLaterRow-refl row);
  ledger_grows = ([], l ∙ sym (append-nil w.ledger));
  outbox_grows = ([], o ∙ sym (append-nil w.outbox));
  books =
      λ b. record { exact = λ order_id. rw (l, p) (b.exact order_id); charged = rw p b.charged };
}

pub Later-trans : (u v w : World) → Later u v → Later v w → Later u w
Later-trans u v w h k = record {
  rows = λ order_id p found.
      let (q, at, pq) = h.rows order_id p found in
      let (r, then_at, qr) = k.rows order_id q at in (r, then_at, IsLaterRow-trans p q r pq qr);
  ledger_grows = (
    h.ledger_grows.0 ++ k.ledger_grows.0,
    k.ledger_grows.1
        ∙ ap (λ l. l ++ k.ledger_grows.0) h.ledger_grows.1
        ∙ append_assoc u.ledger h.ledger_grows.0 k.ledger_grows.0,
  );
  outbox_grows = (
    h.outbox_grows.0 ++ k.outbox_grows.0,
    k.outbox_grows.1
        ∙ ap (λ l. l ++ k.outbox_grows.0) h.outbox_grows.1
        ∙ append_assoc u.outbox h.outbox_grows.0 k.outbox_grows.0,
  );
  books = λ b. k.books (h.books b);
}
