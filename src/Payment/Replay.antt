-- ===== src/Payment/Replay.antt =====
-- Retries: a finished operation is replayed, a failed one changes no money, and an authorization
-- never overwrites a payment.
use smart_food_ops.Prelude.{
  ℕ, ◌+◌, ◌≤◌, ◌≡◌, true, false, some, arith, nat_eq, refl, subst, ap, ◌∙◌,
}
use smart_food_ops.Table.{lookup}
use smart_food_ops.Idempotency.Rows.{ReserveOutcome, alone, held, KeyTable}
use smart_food_ops.Idempotency.Store.{reserve, complete}
use smart_food_ops.Idempotency.Reserve.{reserve_holds, reserve_replays, lookup-complete}
use smart_food_ops.Payment.Rows.{Payment, World, MoneyKey, key_eq, CallAnswer, Body}
use smart_food_ops.Payment.Service.{
  Config, nobody, Move, Answer, outcome, op_parts, lifecycle, proceed, refusal, call_and_settle,
  settle, converge, unless,
}

module _ (cfg : Config) (answer : CallAnswer) (move : Move) (order_id : ℕ) where
  key : MoneyKey
  key = (order_id, move.op)

  -- A fresh answer is the one that is stored under the key.
  abbrev Stores : KeyTable MoneyKey Body → Answer × World → Type 0
  Stores keys (outcome (some status) (some body) false, w') =
      w'.keys ≡ complete key status body keys
  Stores keys _ = Unit

  converge-Stores : (w : World) → Stores w.keys (converge key order_id w)
  unfolding converge
  converge-Stores w = ground arith

  settle-Stores : (row : Payment) (w : World) → Stores w.keys (settle move order_id row w)
  unfolding settle key
  settle-Stores row w = ground arith

  call-Stores :
      (row : Payment) (w : World)
      → Stores w.keys (call_and_settle answer (λ u. u) move order_id row w)
  unfolding call_and_settle key
  call-Stores row w = ground arith

  proceed-Stores : (w : World) → Stores w.keys (proceed answer (λ u. u) move order_id w)
  unfolding proceed key
  proceed-Stores w = ground arith

  fresh_answer :
      (verdict : ReserveOutcome Body) (held : World) (rest : World → Answer × World) (status : ℕ)
      (body : Body) (w' : World)
      → unless (refusal verdict) held rest ≡ (outcome (some status) (some body) false, w')
      → (verdict ≡ ReserveOutcome.reserved)
        × (rest held ≡ (outcome (some status) (some body) false, w'))
  fresh_answer ReserveOutcome.reserved held rest status body w' h = (refl, h)
  fresh_answer (ReserveOutcome.replay _ _) held rest status body w' h = cc
  fresh_answer ReserveOutcome.in_progress held rest status body w' h = cc
  fresh_answer ReserveOutcome.body_mismatch held rest status body w' h = cc

  hash : ℕ
  hash = cfg.op_hash (op_parts move.op order_id)

  -- A call that answers afresh reserved its key, and stored its answer in the reserved row.
  lifecycle_stored :
      (now status : ℕ) (body : Body) (w w' : World)
      → lifecycle cfg (nobody now) answer move order_id w
        ≡ (outcome (some status) (some body) false, w')
      → (keys : KeyTable MoneyKey Body) × (lookup key keys ≡ some (held hash now))
        × (w'.keys ≡ complete key status body keys)
  unfolding lifecycle key hash
  lifecycle_stored now status body w w' h =
      let (verdict, keys) = reserve cfg.ttl (alone now) key hash w.keys in
      let found : World = record w { keys = keys } in
      let (reserved, proceeded) =
        fresh_answer verdict found (λ u. proceed answer (λ v. v) move order_id u) status body w'
          h in
      let holds = reserve_holds cfg.ttl key (alone now) hash w.keys reserved in
      (keys, ground (arith, holds.1, holds.2), subst (Stores keys) proceeded (proceed-Stores found))

  -- A money operation that answers afresh, with nobody else at work in the call, is replayed to a
  -- retry within the replay window, with nobody at work in the retry: whatever has been done since
  -- to all the tables, as long as the row of the operation's key is the one that the call left, and
  -- whatever the gateway would answer by then, the retry has the same status and body, marked as a
  -- replay, and changes no table.
  pub lifecycle_replayed :
      (now later status : ℕ) (body : Body) (retry_answer : CallAnswer) (w w' since : World)
      → lifecycle cfg (nobody now) answer move order_id w
        ≡ (outcome (some status) (some body) false, w')
      → lookup (order_id, move.op) since.keys ≡ lookup (order_id, move.op) w'.keys
      → later ≤ now + cfg.ttl.replay_ttl
      → lifecycle cfg (nobody later) retry_answer move order_id since
        ≡ (outcome (some status) (some body) true, since)
  unfolding lifecycle key hash
  lifecycle_replayed now later status body retry_answer w w' since h stands fresh =
      let (keys, holds, stored) = lifecycle_stored now status body w w' h in
      let row = held hash now in
      let finishes = lookup-complete cfg.ttl key row status body keys holds in
      let replays =
        reserve_replays cfg.ttl key row status later body since.keys
          (stands ∙ ap (lookup key) stored ∙ finishes) fresh in
      ground (arith, replays)
