-- ===== src/Idempotency/Takeover.antt =====
-- Two calls that meet on one expired row: each reads it before either writes.
use smart_food_ops.Prelude.{ℕ, ◌+◌, ◌<◌, ◌≡◌, some, arith, KeyEq}
use smart_food_ops.Table.{lookup, lookup-insert_self}
use smart_food_ops.Idempotency.Rows.{KeyStatus, KeyRow, ReserveOutcome, Ttl, KeyTable, held, alone}
use smart_food_ops.Idempotency.Store.{reserve}

module _ {K B : Type 0} ⦃e : KeyEq K⦄ (ttl : Ttl) (key : K) where
  -- Of two calls with the right hash that both read a finished row past its replay window, the one
  -- that writes first holds the key, and the other waits.
  pub reserve_expired_once :
      (now : ℕ) (row : KeyRow B) (st : KeyTable K B)
      → lookup key st ≡ some row
      → row.status ≡ KeyStatus.complete
      → row.created_at + ttl.replay_ttl < now
      → let first = reserve ttl (alone now) key row.body_hash st in
        let second =
          reserve ttl
            (record (alone now) {
              after_read = λ seen. (reserve ttl (alone now) key row.body_hash seen).1;
            })
            key
            row.body_hash
            st in
        (first.0 ≡ ReserveOutcome.reserved) × (second ≡ (ReserveOutcome.in_progress, first.1))
  unfolding reserve
  reserve_expired_once now row st h finished old =
      ground (arith, lookup-insert_self key (held row.body_hash now) st)

  -- Of two calls with the right hash that both read an in-progress row past its takeover window,
  -- both are told that they hold the key: the guard `status = IN_PROGRESS` still holds after the
  -- first takeover.
  pub reserve_stale_twice :
      (now : ℕ) (row : KeyRow B) (st : KeyTable K B)
      → lookup key st ≡ some row
      → row.status ≡ KeyStatus.in_progress
      → row.created_at + ttl.in_progress_ttl < now
      → let first = reserve ttl (alone now) key row.body_hash st in
        let second =
          reserve ttl
            (record (alone now) {
              after_read = λ seen. (reserve ttl (alone now) key row.body_hash seen).1;
            })
            key
            row.body_hash
            st in
        (first.0 ≡ ReserveOutcome.reserved) × (second.0 ≡ ReserveOutcome.reserved)
  unfolding reserve
  reserve_stale_twice now row st h running old =
      ground (arith, lookup-insert_self key (held row.body_hash now) st)
