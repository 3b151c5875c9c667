-- ===== src/Payment/Ledger.antt =====
-- Every call of the service leads to a later world, whatever others commit meanwhile.
use smart_food_ops.Prelude.{
  ℕ, ◌≡◌, refl, Option, none, some, [], ◌∷◌, ◌++◌, nat_eq, Option-cases, inl, inr, Bool-cases,
}
use smart_food_ops.Table.{lookup}
use smart_food_ops.Idempotency.Store.{reserve}
use smart_food_ops.Payment.Rows.{status_beq, Payment, World, key_eq, MoneyOp, op_beq, CallAnswer}
use smart_food_ops.Payment.Service.{
  Move, settle, call_and_settle, lifecycle, Config, Others, nobody, release_key, proceed, Answer,
  unless, refusal, op_parts,
}
use smart_food_ops.Payment.Moves.{IsSound, converge-Later, settle-Later}
use smart_food_ops.Payment.Books.{Later, Later-same, Later-trans}

module _ (move : Move) (sound : IsSound move) (order_id : ℕ) where
  abbrev called : (World → World) → World → World
  called during_call w = during_call (record w { calls = w.calls ++ (order_id, move.op) ∷ [] })

  called-Later :
      (during_call : World → World) (w : World)
      → ((u : World) → Later u (during_call u))
      → Later w (called during_call w)
  called-Later during_call w rely =
      let sent : World = record w { calls = w.calls ++ (order_id, move.op) ∷ [] } in
      Later-trans w sent (during_call sent) (Later-same w sent refl refl refl) (rely sent)

  called-settle-Later :
      (during_call : World → World) (row : Payment) (w : World)
      → lookup order_id w.payments ≡ some row
      → ((u : World) → Later u (during_call u))
      → Later w (settle move order_id row (called during_call w)).1
  called-settle-Later during_call row w found rely =
      let later = called-Later during_call w rely in
      let (p, at, since) = later.rows order_id row found in
      Later-trans w (called during_call w) _ later
        (settle-Later move sound order_id row p (called during_call w) at since)

  called-release-Later :
      (during_call : World → World) (w : World)
      → ((u : World) → Later u (during_call u))
      → Later w (release_key (order_id, move.op) (called during_call w))
  called-release-Later during_call w rely =
      Later-trans w (called during_call w) _ (called-Later during_call w rely)
        (Later-same _ _ refl refl refl)

  -- The call, with what others commit while it runs.
  call_and_settle-Later :
      (answer : CallAnswer) (during_call : World → World) (row : Payment) (w : World)
      → lookup order_id w.payments ≡ some row
      → ((u : World) → Later u (during_call u))
      → Later w (call_and_settle answer during_call move order_id row w).1
  unfolding call_and_settle
  call_and_settle-Later CallAnswer.done d row w found rely = called-settle-Later d row w found rely
  call_and_settle-Later CallAnswer.psp_unavailable d row w found rely =
      called-release-Later d w rely
  call_and_settle-Later CallAnswer.psp_unknown_ref d row w found rely =
      elim (Bool-cases (op_beq move.op MoneyOp.void)) [
        | inl is_void ↦ rw is_void (called-settle-Later d row w found rely)
        | inr other ↦ rw other (called-release-Later d w rely)
      ]
  call_and_settle-Later CallAnswer.psp_state_conflict d row w found rely =
      called-release-Later d w rely

  proceed-Later :
      (answer : CallAnswer) (during_call : World → World) (w : World)
      → ((u : World) → Later u (during_call u))
      → Later w (proceed answer during_call move order_id w).1
  unfolding proceed
  proceed-Later answer during_call w rely = elim (Option-cases (lookup order_id w.payments)) [
    | inl absent ↦ rw (absent, proceed) (Later-same w _ refl refl refl)
    | inr (row, found) ↦ elim (Bool-cases (status_beq row.status move.target)) [
      | inl there ↦ rw (found, proceed, there) (converge-Later (order_id, move.op) order_id w)
      | inr not_yet ↦ elim (Bool-cases (status_beq row.status move.expected)) [
        | inl fits ↦
            rw (found, proceed, not_yet, fits)
              (call_and_settle-Later answer during_call row w found rely)
        | inr unfit ↦ rw (found, proceed, not_yet, unfit) (Later-same w _ refl refl refl)
      ]
    ]
  ]

-- What a call may rely on: others, too, only go to later worlds.
pub record IsHonest (others : Others) : Type 0 where
  pub before : (w : World) → Later w (others.after_reserve w)
  pub during : (w : World) → Later w (others.during_call w)

-- No others are honest others.
pub nobody-IsHonest : (now : ℕ) → IsHonest (nobody now)
nobody-IsHonest now = record {
  before = λ w. Later-same w w refl refl refl;
  during = λ w. Later-same w w refl refl refl;
}

pub unless-Later :
    (refused : Option Answer) (w held : World) (rest : World → Answer × World)
    → Later w held
    → Later held (rest held).1
    → Later w (unless refused held rest).1
unless-Later (some a) w held rest h k = h
unless-Later none w held rest h k = Later-trans w held _ h k

pub lifecycle-Later :
    (cfg : Config) (others : Others) (answer : CallAnswer) (move : Move) (order_id : ℕ) (w : World)
    → IsSound move
    → IsHonest others
    → Later w (lifecycle cfg others answer move order_id w).1
unfolding lifecycle
lifecycle-Later cfg others answer move order_id w sound honest =
    let (verdict, keys) =
      reserve cfg.ttl others.schedule (order_id, move.op) (cfg.op_hash (op_parts move.op order_id))
        w.keys in
    let held : World = record w { keys = keys } in
    unless-Later (refusal verdict) w held
      (λ h. proceed answer others.during_call move order_id (others.after_reserve h))
      (Later-same w held refl refl refl)
      (Later-trans held (others.after_reserve held) _ (honest.before held) (
        proceed-Later move sound order_id answer others.during_call (others.after_reserve held)
          honest.during))
