-- ===== src/Edge/Bound.antt =====
-- How many requests services/edge-bff/edge_bff/limiter.py lets through in a window.
use smart_food_ops.Prelude.{
  ℕ, ◌+◌, ◌-◌, ◌≤◌, ◌≡◌, ap, ◌∙◌, Bool, true, false, ◌&&◌, Option, none, some, List, [], ◌∷◌, arith,
  Bool-cases, inl, inr,
}
use smart_food_ops.Edge.Limiter.{
  Key, key_beq, key_beq_iff, Redis, Decision, Config, answers, Request, key_of, check,
}
use smart_food_ops.Edge.Counter.{stored, IsFresh, count_if}
use smart_food_ops.Edge.Window.{runs, check-IsFresh, check-stored, check-decision, no_counters}

abbrev pub verdict : Option Decision → Bool
verdict none = false
verdict (some decision) = decision.allowed

-- The requests of the key that a check allowed. One that no verdict let pass is not counted.
unfoldable pub allowed_in : Config → Key → List Request → Redis → ℕ
allowed_in cfg key [] redis = 0
allowed_in cfg key (r ∷ rs) redis =
    let (decision, redis') = check cfg r redis in
    count_if (key_beq (key_of cfg r) key && verdict decision) + allowed_in cfg key rs redis'

module _ (cfg : Config) (some_window : 1 ≤ cfg.window) where
  allowed-answers :
      (r : Request) (redis : Redis) → verdict (check cfg r redis).0 ≡ true → r.reach ≡ answers
  unfolding check
  allowed-answers r redis allowed = ground arith

  allowed-runs :
      (r : Request) (limit : ℕ)
      → cfg.limits r.asked_class ≡ some limit
      → r.reach ≡ answers
      → runs cfg r ≡ true
  allowed-runs r limit limited answered = ground arith

  -- A request of the key that is allowed takes one of what is left.
  allowed_step :
      (key : Key) (limit : ℕ) (r : Request) (redis : Redis)
      → cfg.limits key.route_class ≡ some limit
      → IsFresh cfg redis
      → count_if (key_beq (key_of cfg r) key && verdict (check cfg r redis).0)
          + (limit - stored key (check cfg r redis).1)
        ≤ limit - stored key redis
  allowed_step key limit r redis limited fresh =
      let counted = check-stored cfg some_window r redis key fresh in
      elim (Bool-cases (key_beq (key_of cfg r) key && verdict (check cfg r redis).0)) [
        | inr refused ↦ omega (arith, counted, ap count_if refused)
        | inl allowed ↦
            let (here, passed) = both _ _ allowed in
            let same = (key_beq_iff (key_of cfg r) key).0 here in
            let answered = allowed-answers r redis passed in
            let limited' = ap (λ (k : Key). cfg.limits k.route_class) same ∙ limited in
            let ran = allowed-runs r limit limited' answered in
            let decision = check-decision cfg some_window r redis limit fresh limited' answered in
            let at = ap (λ (k : Key). stored k redis) same in
            ground (arith, allowed, counted, here, ran, decision, passed, at)
      ]
    where
      both : (a b : Bool) → a && b ≡ true → (a ≡ true) × (b ≡ true)
      both a b h = (ground arith, ground arith)

  allowed_left :
      (key : Key) (limit : ℕ) (rs : List Request) (redis : Redis)
      → cfg.limits key.route_class ≡ some limit
      → IsFresh cfg redis
      → allowed_in cfg key rs redis ≤ limit - stored key redis
  unfolding allowed_in
  allowed_left key limit [] redis limited fresh = omega arith
  allowed_left key limit (r ∷ rs) redis limited fresh = omega (
    arith,
    allowed_step key limit r redis limited fresh,
    allowed_left key limit rs (check cfg r redis).1 limited
        (check-IsFresh cfg some_window r redis fresh),
  )

  -- With windows of at least a second: of any history of checks, with Redis failing at any of them
  -- and other callers, classes and windows between, at most `limit` of one class, caller and window
  -- are allowed by a verdict.
  pub allowed_bound :
      (key : Key) (limit : ℕ) (history : List Request)
      → cfg.limits key.route_class ≡ some limit
      → allowed_in cfg key history [] ≤ limit
  allowed_bound key limit history limited =
      omega (arith, allowed_left key limit history [] limited (no_counters cfg some_window))
