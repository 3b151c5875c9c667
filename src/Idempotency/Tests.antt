-- ===== src/Idempotency/Tests.antt =====
-- The store on concrete keys: 7 and 8, with response bodies that are numbers.
use smart_food_ops.Prelude.{ℕ, ◌≡◌, refl, some, [], ◌∷◌, nat_eq, arith}
use smart_food_ops.Table.{lookup}
use smart_food_ops.Table.Keyed.{delete_where}
use smart_food_ops.Idempotency.Rows.{
  KeyStatus, KeyRow, ReserveOutcome, Ttl, KeyTable, Schedule, alone, held,
}
use smart_food_ops.Idempotency.Store.{reserve, complete, release, purge}
use smart_food_ops.Idempotency.Reserve.{reserve-complete, reserve-release}
use smart_food_ops.Idempotency.Takeover.{reserve_stale_twice}
use smart_food_ops.Idempotency.Invariant.{IsSound, here, next, completes, Reach-IsSound}
use smart_food_ops.Idempotency.Purge.{reserve-purge}

abbrev ttl : Ttl
ttl = record { replay_ttl = 86400; in_progress_ttl = 300 }

abbrev finished : KeyRow ℕ
finished = record {
  body_hash = 5;
  status = KeyStatus.complete;
  response_status = some 202;
  response_body = some 99;
  created_at = 1000;
}

-- Key 7 is in progress since 1000, key 8 is finished.
abbrev keys : KeyTable ℕ ℕ
keys = (7, held 5 1000) ∷ (8, finished) ∷ []

reserve-complete_example :
    let done = complete 7 202 44 keys in
    reserve ttl (alone 1200) 7 5 done ≡ (ReserveOutcome.replay (some 202) (some 44), done)
unfolding lookup
reserve-complete_example = reserve-complete ttl 7 (held 5 1000) 202 1200 44 keys refl (omega arith)

reserve-release_example :
    (reserve ttl (alone 1200) 7 6 (release 7 keys)).0 ≡ ReserveOutcome.reserved
reserve-release_example = reserve-release ttl 7 (alone 1200) 6 keys

-- Another call takes the row over after this one has read it.
abbrev raced : ℕ → ℕ → Schedule ℕ ℕ
raced key now = record (alone now) { after_read = λ seen. (reserve ttl (alone now) key 5 seen).1 }

reserve_stale_twice_example :
    ((reserve ttl (alone 1301) 7 5 keys).0 ≡ ReserveOutcome.reserved)
    × ((reserve ttl (raced 7 1301) 7 5 keys).0 ≡ ReserveOutcome.reserved)
unfolding lookup
reserve_stale_twice_example =
    reserve_stale_twice ttl 7 1301 (held 5 1000) keys refl refl (omega arith)

keys-IsSound : IsSound keys
keys-IsSound = (tt, (tt, tt))

Reach-IsSound_example : IsSound (complete 7 202 44 keys)
Reach-IsSound_example = Reach-IsSound keys-IsSound (next here (completes 7 202 44))

reserve-purge_example :
    (reserve ttl (alone 90000) 8 5 (purge ttl 3600 90000 keys).1).0
    ≡ (reserve ttl (alone 90000) 8 5 keys).0
unfolding lookup reserve
reserve-purge_example =
    reserve-purge ttl 8 3600 90000 5 keys (refl, (refl, tt)) (omega arith) (λ e. cc)

purge_takes_both : purge ttl 3600 90000 keys ≡ (2, [])
unfolding purge delete_where
purge_takes_both = refl
