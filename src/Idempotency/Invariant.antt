-- ===== src/Idempotency/Invariant.antt =====
-- Every finished row carries a response, under any interleaving of the store's statements.
use smart_food_ops.Prelude.{ℕ, ◌≡◌, Option, none, some, arith, KeyEq, Option-cases, inl, inr}
use smart_food_ops.Table.{lookup, insert}
use smart_food_ops.Table.Rows.{
  AllRows, AllRows-lookup, AllRows-insert, AllRows-erase, AllRows-delete_where,
}
use smart_food_ops.Idempotency.Rows.{
  KeyStatus, KeyRow, ReserveOutcome, Ttl, KeyTable, held, Schedule, is_dead,
}
use smart_food_ops.Idempotency.Store.{take_over, reserve, complete, release, purge}

abbrev pub HasResponse : {B : Type 0} → KeyStatus → Option ℕ → Option B → Type 0
HasResponse KeyStatus.in_progress _ _ = Unit
HasResponse KeyStatus.complete none _ = ⊥
HasResponse KeyStatus.complete (some _) none = ⊥
HasResponse KeyStatus.complete (some _) (some _) = Unit

abbrev pub IsAnswered : {B : Type 0} → KeyRow B → Type 0
IsAnswered row = HasResponse row.status row.response_status row.response_body

abbrev pub IsSound : {K B : Type 0} → KeyTable K B → Type 0
IsSound st = AllRows IsAnswered st

-- One committed statement of some process.
pub data Step {K B : Type 0} ⦃e : KeyEq K⦄ (st : KeyTable K B) : KeyTable K B → Type 0 where
  inserts :
      (key : K) (request_hash now : ℕ)
      → lookup key st ≡ none
      → Step st (insert key (held request_hash now) st)
  takes_over :
      (key : K) (request_hash now : ℕ) (expected : KeyStatus)
      → Step st (take_over key request_hash expected now st).1
  completes :
      (key : K) (response_status : ℕ) (response_body : B)
      → Step st (complete key response_status response_body st)
  releases : (key : K) → Step st (release key st)
  purges : (ttl : Ttl) (orphan_ttl now : ℕ) → Step st (purge ttl orphan_ttl now st).1

pub data Reach {K B : Type 0} ⦃e : KeyEq K⦄ (st : KeyTable K B) : KeyTable K B → Type 0 where
  here : Reach st st
  next : {t u : KeyTable K B} → Reach st t → Step t u → Reach st u

module _ {K B : Type 0} ⦃e : KeyEq K⦄ where
  pub Step-IsSound : {st t : KeyTable K B} → Step st t → IsSound st → IsSound t
  unfolding take_over complete release purge
  Step-IsSound {st} (inserts key h now free) s = AllRows-insert IsAnswered key (held h now) st tt s
  Step-IsSound {st} (takes_over key h now expected) s =
      ground (arith, AllRows-insert IsAnswered key (held h now) st tt s)
  Step-IsSound {st} (completes key n b) s = elim (Option-cases (lookup key st)) [
    | inl absent ↦ ground arith
    | inr (row, found) ↦ ground (
      arith,
      AllRows-insert IsAnswered key
          (record row {
            status = KeyStatus.complete;
            response_status = some n;
            response_body = some b;
          })
          st tt s,
    )
  ]
  Step-IsSound {st} (releases key) s = AllRows-erase IsAnswered key st s
  Step-IsSound {st} (purges ttl orphan_ttl now) s =
      AllRows-delete_where IsAnswered (is_dead ttl orphan_ttl now) st s

  -- However the statements of any number of processes interleave, every finished row keeps both
  -- halves of its response.
  pub Reach-IsSound : {st t : KeyTable K B} → IsSound st → Reach st t → IsSound t
  Reach-IsSound s here = s
  Reach-IsSound s (next r step) = Step-IsSound step (Reach-IsSound s r)

  -- A replay is never empty: on a sound table, and with others keeping it sound between the
  -- statements, a replay carries a status and a body.
  pub replay_has_response :
      (ttl : Ttl) (s : Schedule K B) (key : K) (request_hash : ℕ) (st : KeyTable K B)
      (status : Option ℕ) (body : Option B)
      → IsSound (s.after_insert st)
      → (reserve ttl s key request_hash st).0 ≡ ReserveOutcome.replay status body
      → (n : ℕ) × (b : B) × (status ≡ some n) × (body ≡ some b)
  unfolding reserve
  replay_has_response ttl s key request_hash st status body sound h =
      elim (Option-cases (lookup key (s.after_insert st))) [
        | inl absent ↦ ground arith
        | inr (row, found) ↦
            ground (arith, AllRows-lookup IsAnswered key row (s.after_insert st) sound found)
      ]
