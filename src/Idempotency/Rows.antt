-- ===== src/Idempotency/Rows.antt =====
-- The rows of the idempotency table, the verdicts on a key, and what a row that was read calls for.
use smart_food_ops.Prelude.{
  ℕ, ◌+◌, ◌-◌, Bool, true, false, ◌&&◌, ◌||◌, Option, none, some, ltb, nat_beq, if◌then◌else◌,
}
use smart_food_ops.Table.{Table}

pub data KeyStatus : Type 0 where
  in_progress complete : KeyStatus

abbrev pub status_beq : KeyStatus → KeyStatus → Bool
status_beq KeyStatus.in_progress KeyStatus.in_progress = true
status_beq KeyStatus.complete KeyStatus.complete = true
status_beq _ _ = false

-- A row of the table. `B` is the type of response bodies; a time is a number of seconds.
pub record KeyRow (B : Type 0) : Type 0 where
  pub body_hash : ℕ
  pub status : KeyStatus
  pub response_status : Option ℕ
  pub response_body : Option B
  pub created_at : ℕ

pub data ReserveOutcome (B : Type 0) : Type 0 where
  reserved : ReserveOutcome B
  replay : Option ℕ → Option B → ReserveOutcome B
  in_progress : ReserveOutcome B
  body_mismatch : ReserveOutcome B

pub record Ttl : Type 0 where
  pub replay_ttl : ℕ
  pub in_progress_ttl : ℕ

abbrev pub KeyTable : Type 0 → Type 0 → Type 0
KeyTable K B = Table K (KeyRow B)

-- A row as `reserve` and `_take_over` write it.
abbrev pub held : {B : Type 0} → ℕ → ℕ → KeyRow B
held request_hash now = record {
  body_hash = request_hash;
  status = KeyStatus.in_progress;
  response_status = none;
  response_body = none;
  created_at = now;
}

-- The times that one call of `reserve` reads, and what others commit between its statements.
pub record Schedule (K B : Type 0) : Type 0 where
  pub at_insert : ℕ
  pub at_read : ℕ
  pub at_take : ℕ
  pub after_insert : KeyTable K B → KeyTable K B
  pub after_read : KeyTable K B → KeyTable K B

-- Nobody else writes, and the call is done within one tick.
abbrev pub alone : {K B : Type 0} → ℕ → Schedule K B
alone now = record {
  at_insert = now;
  at_read = now;
  at_take = now;
  after_insert = λ st. st;
  after_read = λ st. st;
}

-- What the row that was read calls for: an answer, or an attempt to take it over.
pub data Reading (B : Type 0) : Type 0 where
  answer : ReserveOutcome B → Reading B
  take_from : KeyStatus → Reading B

unfoldable pub read_row : {B : Type 0} → Ttl → ℕ → ℕ → Option (KeyRow B) → Reading B
read_row ttl request_hash now none = answer ReserveOutcome.in_progress
read_row ttl request_hash now (some row) =
    if nat_beq row.body_hash request_hash
    then elim row.status [
      | KeyStatus.complete ↦
          if ltb ttl.replay_ttl (now - row.created_at)
          then take_from KeyStatus.complete
          else answer (ReserveOutcome.replay row.response_status row.response_body)
      | KeyStatus.in_progress ↦
          if ltb ttl.in_progress_ttl (now - row.created_at)
          then take_from KeyStatus.in_progress
          else answer ReserveOutcome.in_progress
    ]
    else answer ReserveOutcome.body_mismatch

-- The WHERE clause of `purge`: past the replay promise, or an orphan.
abbrev pub is_dead : {B : Type 0} → Ttl → ℕ → ℕ → KeyRow B → Bool
is_dead ttl orphan_ttl now row =
    status_beq row.status KeyStatus.complete && ltb (row.created_at + ttl.replay_ttl) now
    || status_beq row.status KeyStatus.in_progress && ltb (row.created_at + orphan_ttl) now
