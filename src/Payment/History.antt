-- ===== src/Payment/History.antt =====
-- Whole histories of calls, and what they leave in the tables.
use smart_food_ops.Prelude.{
  ℕ, ◌+◌, ◌≡◌, Option, none, some, List, [], ◌∷◌, ◌++◌, ◌⊎◌, nat_eq, arith, if◌then◌else◌, All,
  refl,
}
use smart_food_ops.Table.{lookup}
use smart_food_ops.Payment.Rows.{
  captured, refunded, voided, declined, Payment, World, Account, account_beq, customer,
  platform_cash, Entry, Event, AuthAnswer, CallAnswer,
}
use smart_food_ops.Payment.Service.{Config, Others, capture, void, refund, authorize, lifecycle}
use smart_food_ops.Payment.Moves.{capture-IsSound, void-IsSound, refund-IsSound}
use smart_food_ops.Payment.Ledger.{IsHonest, lifecycle-Later}
use smart_food_ops.Payment.Authorize.{authorize-Later}
use smart_food_ops.Payment.Books.{
  entries_for, owed, Books, Later, Later-same, Later-trans, IsLaterRow,
}

-- One call of the service, with the gateway's answer and what others commit meanwhile.
pub data Call : Type 0 where
  authorizes : AuthAnswer → ℕ → ℕ → ℕ → ℕ → Call
  captures voids refunds : CallAnswer → ℕ → Call

unfoldable pub serve_call : Config → Others → Call → World → World
serve_call cfg others (authorizes answer o amount currency token) w =
    (authorize cfg others answer o amount currency token w).1
serve_call cfg others (captures answer o) w = (lifecycle cfg others answer capture o w).1
serve_call cfg others (voids answer o) w = (lifecycle cfg others answer void o w).1
serve_call cfg others (refunds answer o) w = (lifecycle cfg others answer refund o w).1

unfoldable pub serve : Config → List (Others × Call) → World → World
unfolding serve_call
serve cfg [] w = w
serve cfg ((others, call) ∷ calls) w = serve cfg calls (serve_call cfg others call w)

abbrev pub fresh : World
fresh = record { payments = []; ledger = []; outbox = []; keys = []; calls = [] }

pub serve_call-Later :
    (cfg : Config) (others : Others) (call : Call) (w : World)
    → IsHonest others
    → Later w (serve_call cfg others call w)
unfolding serve_call
serve_call-Later cfg others (authorizes answer o amount currency token) w h =
    authorize-Later o amount currency token cfg others answer w h
serve_call-Later cfg others (captures answer o) w h =
    lifecycle-Later cfg others answer capture o w capture-IsSound h
serve_call-Later cfg others (voids answer o) w h =
    lifecycle-Later cfg others answer void o w void-IsSound h
serve_call-Later cfg others (refunds answer o) w h =
    lifecycle-Later cfg others answer refund o w refund-IsSound h

serve-Later :
    (cfg : Config) (calls : List (Others × Call)) (w : World)
    → All (λ c. IsHonest c.0) calls
    → Later w (serve cfg calls w)
unfolding serve
serve-Later cfg [] w h = Later-same w w refl refl refl
serve-Later cfg ((others, call) ∷ calls) w h =
    Later-trans w (serve_call cfg others call w) _ (serve_call-Later cfg others call w h.0)
      (serve-Later cfg calls (serve_call cfg others call w) h.1)

fresh-Books : Books fresh
unfolding entries_for lookup
fresh-Books = record { exact = λ o. refl; charged = tt }

-- After any calls from empty tables the ledger holds, for every order, exactly the entries that
-- the state of its payment calls for: one balanced pair if captured, that pair and its reverse if
-- refunded, and none otherwise.
pub serve-ledger :
    (cfg : Config) (calls : List (Others × Call)) (order_id : ℕ)
    → All (λ c. IsHonest c.0) calls
    → let w = serve cfg calls fresh in
      entries_for order_id w.ledger ≡ owed order_id (lookup order_id w.payments)
serve-ledger cfg calls order_id h =
    ((serve-Later cfg calls fresh h).books fresh-Books).exact order_id

unfoldable pub debits : Account → List Entry → ℕ
debits account [] = 0
debits account (e ∷ entries) =
    (if account_beq account e.account then e.debit_cents else 0) + debits account entries

unfoldable pub credits : Account → List Entry → ℕ
credits account [] = 0
credits account (e ∷ entries) =
    (if account_beq account e.account then e.credit_cents else 0) + credits account entries

-- What the platform keeps of an order.
abbrev pub kept_cents : Option Payment → ℕ
kept_cents none = 0
kept_cents (some row) = elim row.status [ captured ↦ row.amount_cents | _ ↦ 0 ]

owed_balance :
    (order_id : ℕ) (row : Option Payment)
    → let entries = owed order_id row in
      (credits platform_cash entries ≡ debits platform_cash entries + kept_cents row)
      × (debits customer entries ≡ credits customer entries + kept_cents row)
unfolding debits credits
owed_balance order_id none = ground arith
owed_balance order_id (some row) = ground arith

-- After any calls, the platform's cash account has been credited, over what it was debited, the
-- amount of the order if its payment is captured and nothing otherwise; the customer's account
-- mirrors it.
pub serve-balance :
    (cfg : Config) (calls : List (Others × Call)) (order_id : ℕ)
    → All (λ c. IsHonest c.0) calls
    → let w = serve cfg calls fresh in
      let entries = entries_for order_id w.ledger in
      let cents = kept_cents (lookup order_id w.payments) in
      (credits platform_cash entries ≡ debits platform_cash entries + cents)
      × (debits customer entries ≡ credits customer entries + cents)
serve-balance cfg calls order_id h =
    rw (serve-ledger cfg calls order_id h)
      (owed_balance order_id (lookup order_id (serve cfg calls fresh).payments))

-- Calls, whatever the gateway answers and others commit, never lose a payment row: the row of an
-- order keeps its amount, currency and intent, and its state only advances (authorized to captured
-- or voided, captured to refunded). The ledger and the outbox are only appended to.
pub serve_only_advances :
    (cfg : Config) (calls : List (Others × Call)) (order_id : ℕ) (row : Payment) (w : World)
    → All (λ c. IsHonest c.0) calls
    → lookup order_id w.payments ≡ some row
    → let w' = serve cfg calls w in
      ((later : Payment) × (lookup order_id w'.payments ≡ some later) × IsLaterRow row later)
      × ((more : List Entry) × (w'.ledger ≡ w.ledger ++ more))
      × ((events : List Event) × (w'.outbox ≡ w.outbox ++ events))
serve_only_advances cfg calls order_id row w h found =
    let later = serve-Later cfg calls w h in
    (later.rows order_id row found, later.ledger_grows, later.outbox_grows)

-- A voided, declined or refunded payment keeps its state for good.
pub ended_for_good :
    (cfg : Config) (calls : List (Others × Call)) (order_id : ℕ) (row : Payment) (w : World)
    → All (λ c. IsHonest c.0) calls
    → lookup order_id w.payments ≡ some row
    → (row.status ≡ voided) ⊎ (row.status ≡ declined) ⊎ (row.status ≡ refunded)
    → (later : Payment) × (lookup order_id (serve cfg calls w).payments ≡ some later)
      × (later.status ≡ row.status)
ended_for_good cfg calls order_id row w h found ended =
    let (later, at, since) = (serve-Later cfg calls w h).rows order_id row found in
    (later, at, ground (arith, since.advanced))
