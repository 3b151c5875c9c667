-- ===== src/Idempotency/Reserve.antt =====
-- What `reserve` answers: who holds the key, what a finished key replays, and who wins a takeover.
use smart_food_ops.Prelude.{
  ℕ, ◌+◌, ◌≤◌, ◌≡◌, ◌⊎◌, refl, inl, inr, some, arith, KeyEq, Option-cases, nat_beq, if◌then◌else◌,
}
use smart_food_ops.Table.{lookup, lookup-insert_self, lookup-erase}
use smart_food_ops.Idempotency.Rows.{
  KeyStatus, KeyRow, ReserveOutcome, Ttl, KeyTable, held, Schedule, alone,
}
use smart_food_ops.Idempotency.Store.{take_over, reserve, complete, release}

module _ {K B : Type 0} ⦃e : KeyEq K⦄ (ttl : Ttl) (key : K) where
  take_over_wins :
      (request_hash now : ℕ) (expected : KeyStatus) (st : KeyTable K B)
      → (take_over key request_hash expected now st).0 ≡ ReserveOutcome.reserved
      → lookup key (take_over key request_hash expected now st).1 ≡ some (held request_hash now)
  unfolding take_over
  take_over_wins request_hash now expected st h =
      ground (arith, lookup-insert_self key (held request_hash now) st)

  -- Whatever others write meanwhile, a call that is told `reserved` has left the row in progress
  -- under its own hash with no response, stamped by this call.
  pub reserve_holds :
      (s : Schedule K B) (request_hash : ℕ) (st : KeyTable K B)
      → (reserve ttl s key request_hash st).0 ≡ ReserveOutcome.reserved
      → (now : ℕ) × ((now ≡ s.at_insert) ⊎ (now ≡ s.at_take))
        × (lookup key (reserve ttl s key request_hash st).1 ≡ some (held request_hash now))
  unfolding reserve
  reserve_holds s request_hash st h = elim (Option-cases (lookup key st)) [
    | inl free ↦ (
      s.at_insert,
      inl refl,
      ground (arith, lookup-insert_self key (held request_hash s.at_insert) st),
    )
    | inr (row, taken) ↦ (
      s.at_take,
      inr refl,
      ground (
        arith,
        take_over_wins request_hash s.at_take KeyStatus.in_progress
            (s.after_read (s.after_insert st)),
        take_over_wins request_hash s.at_take KeyStatus.complete (s.after_read (s.after_insert st)),
      ),
    )
  ]

  -- A second call that comes within the takeover window of a held key executes nothing: it waits
  -- if it has the same hash and is refused if it has another. The table stays as it is.
  pub reserve_once :
      (request_hash other_hash now later : ℕ) (st : KeyTable K B)
      → lookup key st ≡ some (held request_hash now)
      → later ≤ now + ttl.in_progress_ttl
      → reserve ttl (alone later) key other_hash st ≡ (
        if nat_beq request_hash other_hash
            then ReserveOutcome.in_progress
            else ReserveOutcome.body_mismatch,
        st,
      )
  unfolding reserve
  reserve_once request_hash other_hash now later st h fresh = ground arith

  abbrev pub finished : ℕ → B → KeyRow B → KeyRow B
  finished response_status response_body row = record row {
    status = KeyStatus.complete;
    response_status = some response_status;
    response_body = some response_body;
  }

  pub lookup-complete :
      (row : KeyRow B) (response_status : ℕ) (response_body : B) (st : KeyTable K B)
      → lookup key st ≡ some row
      → lookup key (complete key response_status response_body st)
        ≡ some (finished response_status response_body row)
  unfolding complete
  lookup-complete row response_status response_body st h =
      ground (arith, lookup-insert_self key (finished response_status response_body row) st)

  -- Whatever else the table holds.
  pub reserve_replays :
      (row : KeyRow B) (response_status now : ℕ) (response_body : B) (st : KeyTable K B)
      → lookup key st ≡ some (finished response_status response_body row)
      → now ≤ row.created_at + ttl.replay_ttl
      → reserve ttl (alone now) key row.body_hash st
        ≡ (ReserveOutcome.replay (some response_status) (some response_body), st)
  unfolding reserve
  reserve_replays row response_status now response_body st h fresh = ground arith

  -- Within the replay window a finished key answers a call with the same hash by the stored
  -- response, and changes nothing.
  pub reserve-complete :
      (row : KeyRow B) (response_status now : ℕ) (response_body : B) (st : KeyTable K B)
      → lookup key st ≡ some row
      → now ≤ row.created_at + ttl.replay_ttl
      → let done = complete key response_status response_body st in
        reserve ttl (alone now) key row.body_hash done
        ≡ (ReserveOutcome.replay (some response_status) (some response_body), done)
  reserve-complete row response_status now response_body st h fresh =
      reserve_replays row response_status now response_body
        (complete key response_status response_body st)
        (lookup-complete row response_status response_body st h) fresh

  -- A released key can be reserved at once, whatever its hash.
  pub reserve-release :
      (s : Schedule K B) (request_hash : ℕ) (st : KeyTable K B)
      → (reserve ttl s key request_hash (release key st)).0 ≡ ReserveOutcome.reserved
  unfolding reserve release
  reserve-release s request_hash st = ground (arith, lookup-erase key key st, e.same_iff key key)
