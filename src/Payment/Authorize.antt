-- ===== src/Payment/Authorize.antt =====
-- `authorize` leads to a later world, whatever others commit meanwhile.
use smart_food_ops.Prelude.{
  ℕ, ◌≡◌, refl, sym, Bool, true, false, none, some, [], ◌∷◌, ◌++◌, nat_eq, ltb, arith,
  if◌then◌else◌, Option-cases, inl, inr, nat_beq_iff, Bool-cases,
}
use mathlib.Core.List.{append-nil}
use smart_food_ops.Table.{lookup, insert, lookup-insert}
use smart_food_ops.Table.Rows.{AllRows-insert}
use smart_food_ops.Idempotency.Store.{reserve}
use smart_food_ops.Payment.Rows.{
  authorized, Payment, World, auth, key_eq, AuthAnswer, described, decline_body, Body,
}
use smart_food_ops.Payment.Service.{
  converge, Config, Others, refusal, auth_parts, record_authorization, authorize, complete_key,
  outcome, call_and_record, authorization, authorization_event,
}
use smart_food_ops.Payment.Moves.{converge-Later}
use smart_food_ops.Payment.Ledger.{IsHonest, unless-Later}
use smart_food_ops.Payment.Books.{IsCharged, IsLaterRow-refl, Later, Later-same, Later-trans}

module _ (order_id amount_cents currency card_token : ℕ) (approved : Bool) (psp_ref : ℕ) where
  abbrev row : Payment
  row = authorization amount_cents currency card_token approved psp_ref

  abbrev recorded : World → World
  recorded w = record w {
    payments = insert order_id row w.payments;
    outbox = w.outbox ++ authorization_event order_id amount_cents currency approved psp_ref;
  }

  abbrev status : ℕ
  status = if approved then 200 else 402

  abbrev body : Body
  body =
      if approved then described order_id authorized amount_cents (some psp_ref) else decline_body

  record_refused :
      (w : World)
      → ltb amount_cents 1 ≡ true
      → record_authorization order_id amount_cents currency card_token approved psp_ref w
        ≡ converge (order_id, auth) order_id w
  unfolding record_authorization
  record_refused w small = ground arith

  pub record_taken :
      (old : Payment) (w : World)
      → lookup order_id w.payments ≡ some old
      → record_authorization order_id amount_cents currency card_token approved psp_ref w
        ≡ converge (order_id, auth) order_id w
  unfolding record_authorization
  record_taken old w found = ground arith

  record_new :
      (w : World)
      → lookup order_id w.payments ≡ none
      → ltb amount_cents 1 ≡ false
      → record_authorization order_id amount_cents currency card_token approved psp_ref w ≡ (
        outcome (some status) (some body) false,
        complete_key (order_id, auth) status body (recorded w),
      )
  unfolding record_authorization
  record_new w free large = ground arith

  recorded-Later :
      (w : World)
      → lookup order_id w.payments ≡ none
      → ltb amount_cents 1 ≡ false
      → Later w (recorded w)
  recorded-Later w free large = record {
    rows = λ o q at. (
      q,
      ground (arith, lookup-insert order_id o row w.payments, nat_beq_iff order_id o),
      IsLaterRow-refl q,
    );
    ledger_grows = ([], sym (append-nil w.ledger));
    outbox_grows = (authorization_event order_id amount_cents currency approved psp_ref, refl);
    books = λ b. record {
      exact = λ o.
          ground
            (arith, b.exact o, lookup-insert order_id o row w.payments, nat_beq_iff order_id o);
      charged = AllRows-insert IsCharged order_id row w.payments (ground arith) b.charged;
    };
  }

  record_authorization-Later :
      (w : World)
      → Later w
          (record_authorization order_id amount_cents currency card_token approved psp_ref w).1
  record_authorization-Later w = elim (Bool-cases (ltb amount_cents 1)) [
    | inl small ↦ rw (record_refused w small) (converge-Later (order_id, auth) order_id w)
    | inr large ↦ elim (Option-cases (lookup order_id w.payments)) [
      | inl free ↦ rw (record_new w free large) (
          Later-trans w (recorded w) _ (recorded-Later w free large)
            (Later-same _ _ refl refl refl))
      | inr (old, found) ↦
          rw (record_taken old w found) (converge-Later (order_id, auth) order_id w)
    ]
  ]

module _ (order_id amount_cents currency card_token : ℕ) where
  called : (World → World) → World → World
  called during_call w = during_call (record w { calls = w.calls ++ (order_id, auth) ∷ [] })

  called-Later :
      (during_call : World → World) (w : World)
      → ((u : World) → Later u (during_call u))
      → Later w (called during_call w)
  unfolding called
  called-Later during_call w rely =
      let sent : World = record w { calls = w.calls ++ (order_id, auth) ∷ [] } in
      Later-trans w sent (during_call sent) (Later-same w sent refl refl refl) (rely sent)

  call_and_record-Later :
      (answer : AuthAnswer) (during_call : World → World) (w : World)
      → ((u : World) → Later u (during_call u))
      → Later w (call_and_record answer during_call order_id amount_cents currency card_token w).1
  unfolding call_and_record called
  call_and_record-Later AuthAnswer.psp_unavailable d w rely =
      Later-trans w (called d w) _ (called-Later d w rely) (Later-same _ _ refl refl refl)
  call_and_record-Later (AuthAnswer.result approved psp_ref) d w rely =
      Later-trans w (called d w) _ (called-Later d w rely) (
        record_authorization-Later order_id amount_cents currency card_token approved psp_ref
          (called d w))

  pub authorize-Later :
      (cfg : Config) (others : Others) (answer : AuthAnswer) (w : World)
      → IsHonest others
      → Later w (authorize cfg others answer order_id amount_cents currency card_token w).1
  unfolding authorize
  authorize-Later cfg others answer w honest =
      let (verdict, keys) =
        reserve cfg.ttl others.schedule (order_id, auth)
          (cfg.op_hash (auth_parts order_id amount_cents currency)) w.keys in
      let held : World = record w { keys = keys } in
      unless-Later (refusal verdict) w held
        (λ h.
          call_and_record answer others.during_call order_id amount_cents currency card_token
            (others.after_reserve h))
        (Later-same w held refl refl refl)
        (Later-trans held (others.after_reserve held) _ (honest.before held) (
          call_and_record-Later answer others.during_call (others.after_reserve held)
            honest.during))
