-- ===== src/Edge/Counter.antt =====
-- The counter of one key of services/edge-bff/edge_bff/limiter.py through one run of the script.
use native.Mathlib.Nat.{div-add-mod', mod-lt}
use smart_food_ops.Prelude.{
  ℕ, ◌+◌, ◌*◌, ◌/◌, ◌≤◌, ◌<◌, ◌≡◌, refl, sym, ap, subst, Bool, Option, none, some, arith,
  if◌then◌else◌, Option-cases, Bool-cases, inl, inr,
}
use smart_food_ops.Table.{lookup, insert, lookup-insert, lookup-insert_self}
use smart_food_ops.Edge.Limiter.{
  Key, key_beq, key_beq_iff, key_eq, Counter, Redis, live_count, eval_script, Config, Request,
  key_of,
}

abbrev pub stored : Key → Redis → ℕ
stored key redis = elim (lookup key redis) [ none ↦ 0 | some counter ↦ counter.count ]

-- No counter expires within its window.
unfoldable pub IsFresh : Config → Redis → Type 0
IsFresh cfg redis =
    (key : Key) (counter : Counter)
    → lookup key redis ≡ some counter
    → (key.bucket + 1) * cfg.window ≤ counter.expires_at

next_window : (q window : ℕ) → (q + 1) * window ≡ q * window + window
next_window q window = ground arith

in_window : (now window : ℕ) → 1 ≤ window → now < (now / window + 1) * window
in_window now window some_window = omega (
  arith,
  div-add-mod' now window,
  mod-lt now {m = window} some_window,
  next_window (now / window) window,
)

abbrev pub count_if : Bool → ℕ
count_if b = if b then 1 else 0

abbrev pub next_counter : ℕ → Option Counter → Counter
next_counter expires_at none = record { count = 1; expires_at = expires_at }
next_counter expires_at (some counter) = record counter { count = counter.count + 1 }

module _ (cfg : Config) (some_window : 1 ≤ cfg.window) where
  live :
      (r : Request) (redis : Redis)
      → IsFresh cfg redis
      → live_count r.at (lookup (key_of cfg r) redis) ≡ lookup (key_of cfg r) redis
  unfolding IsFresh
  live r redis fresh = elim (Option-cases (lookup (key_of cfg r) redis)) [
    | inl absent ↦ rw absent refl
    | inr (counter, found) ↦
        let long = fresh (key_of cfg r) counter found in
        let now = in_window r.at cfg.window some_window in rw found (ground arith)
  ]

  abbrev pub counter_after : Request → Redis → Counter
  counter_after r redis = next_counter (r.at + cfg.window) (lookup (key_of cfg r) redis)

  pub eval-count :
      (r : Request) (redis : Redis)
      → IsFresh cfg redis
      → eval_script r.at (key_of cfg r) cfg.window redis
        ≡ (stored (key_of cfg r) redis + 1, insert (key_of cfg r) (counter_after r redis) redis)
  unfolding eval_script
  eval-count r redis fresh = elim (Option-cases (lookup (key_of cfg r) redis)) [
    | inl absent ↦ ground (arith, absent, live r redis fresh)
    | inr (counter, found) ↦ ground (arith, found, live r redis fresh)
  ]

  counter_after-expires :
      (r : Request) (redis : Redis)
      → IsFresh cfg redis
      → (r.at / cfg.window + 1) * cfg.window ≤ (counter_after r redis).expires_at
  unfolding IsFresh
  counter_after-expires r redis fresh = elim (Option-cases (lookup (key_of cfg r) redis)) [
    | inl absent ↦
        subst
          (λ o.
            (r.at / cfg.window + 1) * cfg.window ≤ (next_counter (r.at + cfg.window) o).expires_at)
          (sym absent)
          (omega (arith, div-add-mod' r.at cfg.window, next_window (r.at / cfg.window) cfg.window))
    | inr (counter, found) ↦
        subst
          (λ o.
            (r.at / cfg.window + 1) * cfg.window ≤ (next_counter (r.at + cfg.window) o).expires_at)
          (sym found) (fresh (key_of cfg r) counter found)
  ]

  inserted-stored_self :
      (r : Request) (redis : Redis)
      → stored (key_of cfg r) (insert (key_of cfg r) (counter_after r redis) redis)
        ≡ 1 + stored (key_of cfg r) redis
  inserted-stored_self r redis =
      let wrote = lookup-insert_self (key_of cfg r) (counter_after r redis) redis in
      elim (Option-cases (lookup (key_of cfg r) redis)) [
        | inl absent ↦ ground (arith, absent, wrote)
        | inr (counter, found) ↦ ground (arith, found, wrote)
      ]

  pub inserted-IsFresh :
      (r : Request) (redis : Redis)
      → IsFresh cfg redis
      → IsFresh cfg (insert (key_of cfg r) (counter_after r redis) redis)
  unfolding IsFresh
  inserted-IsFresh r redis fresh key counter found =
      elim (Bool-cases (key_beq (key_of cfg r) key)) [
        | inl same ↦
            let here = (key_beq_iff (key_of cfg r) key).0 same in
            let wrote : counter_after r redis ≡ counter = ground (
              arith,
              found,
              same,
              lookup-insert (key_of cfg r) key (counter_after r redis) redis,
            ) in
            subst (λ (k : Key). (k.bucket + 1) * cfg.window ≤ counter.expires_at) here
              (subst (λ (c : Counter). (r.at / cfg.window + 1) * cfg.window ≤ c.expires_at) wrote
                (counter_after-expires r redis fresh))
        | inr other ↦ fresh key counter (
            ground
              (arith, found, other, lookup-insert (key_of cfg r) key (counter_after r redis) redis))
      ]

  pub inserted-stored :
      (r : Request) (redis : Redis) (key : Key)
      → stored key (insert (key_of cfg r) (counter_after r redis) redis)
        ≡ count_if (key_beq (key_of cfg r) key) + stored key redis
  inserted-stored r redis key = elim (Bool-cases (key_beq (key_of cfg r) key)) [
    | inl same ↦
        let here = (key_beq_iff (key_of cfg r) key).0 same in
        subst
          (λ k.
            stored k (insert (key_of cfg r) (counter_after r redis) redis)
            ≡ count_if (key_beq (key_of cfg r) key) + stored k redis)
          here (omega (arith, inserted-stored_self r redis, ap count_if same))
    | inr other ↦
        ground (arith, other, lookup-insert (key_of cfg r) key (counter_after r redis) redis)
  ]
