-- ===== src/Idempotency/Store.antt =====
-- The statements of `IdempotencyStore`, and `reserve` composed of them.
use smart_food_ops.Prelude.{ℕ, true, none, some, KeyEq, if◌then◌else◌}
use smart_food_ops.Table.{lookup, erase, insert_new, update_where}
use smart_food_ops.Table.Keyed.{delete_where}
use smart_food_ops.Idempotency.Rows.{
  KeyStatus, status_beq, ReserveOutcome, Ttl, KeyTable, held, Schedule, answer, take_from, read_row,
  is_dead,
}

module _ {K B : Type 0} ⦃e : KeyEq K⦄ where
  -- `_take_over`
  unfoldable pub take_over : K → ℕ → KeyStatus → ℕ → KeyTable K B → ReserveOutcome B × KeyTable K B
  take_over key request_hash expected now st =
      let (matched, st') =
        update_where key (λ row. status_beq row.status expected) (λ _. held request_hash now) st in
      (if matched then ReserveOutcome.reserved else ReserveOutcome.in_progress, st')

  unfoldable pub reserve :
      Ttl → Schedule K B → K → ℕ → KeyTable K B → ReserveOutcome B × KeyTable K B
  unfolding read_row take_over
  reserve ttl s key request_hash st = elim (insert_new key (held request_hash s.at_insert) st) [
    | some st' ↦ (ReserveOutcome.reserved, st')
    | none ↦
        let seen = s.after_insert st in
        elim (read_row ttl request_hash s.at_read (lookup key seen)) [
          | answer outcome ↦ (outcome, seen)
          | take_from expected ↦ take_over key request_hash expected s.at_take (s.after_read seen)
        ]
  ]

  unfoldable pub complete : K → ℕ → B → KeyTable K B → KeyTable K B
  complete key response_status response_body st =
      (update_where key (λ _. true)
        (λ row. record row {
          status = KeyStatus.complete;
          response_status = some response_status;
          response_body = some response_body;
        })
        st).1

  unfoldable pub release : K → KeyTable K B → KeyTable K B
  release key st = erase key st

module _ {K B : Type 0} where
  unfoldable pub purge : Ttl → ℕ → ℕ → KeyTable K B → ℕ × KeyTable K B
  purge ttl orphan_ttl now st = delete_where (is_dead ttl orphan_ttl now) st
