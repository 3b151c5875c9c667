-- ===== src/Idempotency/Purge.antt =====
-- Reclaiming rows takes nothing from a client.
use smart_food_ops.Prelude.{ℕ, ◌≤◌, ◌≡◌, ◌≢◌, arith, KeyEq}
use smart_food_ops.Table.Keyed.{IsKeyed, lookup-delete_where}
use smart_food_ops.Idempotency.Rows.{ReserveOutcome, Ttl, KeyTable, alone, is_dead}
use smart_food_ops.Idempotency.Store.{reserve, purge}

module _ {K B : Type 0} ⦃e : KeyEq K⦄ (ttl : Ttl) (key : K) where
  -- With an orphan window no shorter than the takeover window, a purge changes no answer of
  -- `reserve` to a call with the hash that the row was made with: who would hold the key, wait or
  -- be replayed still does.
  pub reserve-purge :
      (orphan_ttl now request_hash : ℕ) (st : KeyTable K B)
      → IsKeyed st
      → ttl.in_progress_ttl ≤ orphan_ttl
      → (reserve ttl (alone now) key request_hash st).0 ≢ ReserveOutcome.body_mismatch
      → (reserve ttl (alone now) key request_hash (purge ttl orphan_ttl now st).1).0
        ≡ (reserve ttl (alone now) key request_hash st).0
  unfolding reserve purge
  reserve-purge orphan_ttl now request_hash st keyed wide h =
      ground (arith, lookup-delete_where (is_dead ttl orphan_ttl now) key st keyed)
