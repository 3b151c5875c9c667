-- ===== src/Edge/Window.antt =====
-- The fixed window of services/edge-bff/edge_bff/limiter.py: what any history of checks counts.
use smart_food_ops.Prelude.{
  ℕ, ◌+◌, ◌/◌, ◌≤◌, ◌≡◌, sym, ap, ◌∙◌, subst, Bool, true, false, ◌&&◌, none, some, List, [], ◌∷◌,
  arith, if◌then◌else◌,
}
use smart_food_ops.Table.{lookup, insert}
use smart_food_ops.Edge.Limiter.{
  Key, key_beq, key_eq, Redis, Config, answers, unreachable, answer_lost, Request, key_of, decide,
  check, serve,
}
use smart_food_ops.Edge.Counter.{
  stored, IsFresh, counter_after, count_if, eval-count, inserted-IsFresh, inserted-stored,
}

add_zero : (n : ℕ) → n + 0 ≡ n
add_zero n = omega arith

module _ (cfg : Config) where
  -- The script ran for the request.
  abbrev pub runs : Request → Bool
  runs r =
      elim (cfg.limits r.asked_class) [ none ↦ false | some _ ↦ true ]
      && elim r.reach [ answers ↦ true | unreachable ↦ false | answer_lost ↦ true ]

  -- How many requests of a history ran the script under the key.
  unfoldable pub hits : Key → List Request → ℕ
  hits key [] = 0
  hits key (r ∷ rs) = count_if (key_beq (key_of cfg r) key && runs r) + hits key rs

module _ (cfg : Config) (some_window : 1 ≤ cfg.window) where
  check-redis :
      (r : Request) (redis : Redis)
      → IsFresh cfg redis
      → (check cfg r redis).1 ≡ (
          if runs cfg r
          then insert (key_of cfg r) (counter_after cfg some_window r redis) redis
          else redis)
  unfolding check
  check-redis r redis fresh = ground (arith, eval-count cfg some_window r redis fresh)

  pub check-IsFresh :
      (r : Request) (redis : Redis) → IsFresh cfg redis → IsFresh cfg (check cfg r redis).1
  check-IsFresh r redis fresh = subst (IsFresh cfg) (sym (check-redis r redis fresh)) (
      either_way (insert (key_of cfg r) (counter_after cfg some_window r redis) redis) redis
        (runs cfg r) (inserted-IsFresh cfg some_window r redis fresh) fresh)
    where
      either_way :
          (a b : Redis) (c : Bool)
          → IsFresh cfg a
          → IsFresh cfg b
          → IsFresh cfg (if c then a else b)
      either_way a b true h h' = h
      either_way a b false h h' = h'

  pub check-stored :
      (r : Request) (redis : Redis) (key : Key)
      → IsFresh cfg redis
      → stored key (check cfg r redis).1
        ≡ count_if (key_beq (key_of cfg r) key && runs cfg r) + stored key redis
  check-stored r redis key fresh =
      ap (stored key) (check-redis r redis fresh) ∙ either_way (runs cfg r)
    where
      either_way :
          (c : Bool)
          → stored key (
              if c
              then insert (key_of cfg r) (counter_after cfg some_window r redis) redis
              else redis)
            ≡ count_if (key_beq (key_of cfg r) key && c) + stored key redis
      either_way true = ground (arith, inserted-stored cfg some_window r redis key)
      either_way false = ground arith

  serve-stored :
      (rs : List Request) (redis : Redis) (key : Key)
      → IsFresh cfg redis
      → stored key (serve cfg rs redis) ≡ hits cfg key rs + stored key redis
  unfolding serve hits
  serve-stored [] redis key fresh = omega arith
  serve-stored (r ∷ rs) redis key fresh = omega (
    arith,
    serve-stored rs (check cfg r redis).1 key (check-IsFresh r redis fresh),
    check-stored r redis key fresh,
  )

  serve-IsFresh :
      (rs : List Request) (redis : Redis) → IsFresh cfg redis → IsFresh cfg (serve cfg rs redis)
  unfolding serve
  serve-IsFresh [] redis fresh = fresh
  serve-IsFresh (r ∷ rs) redis fresh =
      serve-IsFresh rs (check cfg r redis).1 (check-IsFresh r redis fresh)

  pub no_counters : IsFresh cfg []
  unfolding IsFresh lookup
  no_counters key counter found = cc

  pub check-decision :
      (r : Request) (redis : Redis) (limit : ℕ)
      → IsFresh cfg redis
      → cfg.limits r.asked_class ≡ some limit
      → r.reach ≡ answers
      → (check cfg r redis).0
        ≡ some (decide (stored (key_of cfg r) redis + 1) limit (r.at / cfg.window) cfg.window)
  unfolding check
  check-decision r redis limit fresh limited answered =
      ground (arith, eval-count cfg some_window r redis fresh)

  -- With windows of at least a second: after any history of checks, at any times and of any callers
  -- and classes, with Redis failing at any of them, a check that Redis answers counts just the
  -- requests of its class, its caller and its window before it that ran the script, and itself. It is
  -- allowed when that is at most the limit.
  pub check_counts :
      (history : List Request) (r : Request) (limit : ℕ)
      → cfg.limits r.asked_class ≡ some limit
      → r.reach ≡ answers
      → (check cfg r (serve cfg history [])).0
        ≡ some (decide (hits cfg (key_of cfg r) history + 1) limit (r.at / cfg.window) cfg.window)
  unfolding lookup
  check_counts history r limit limited answered =
      check-decision r (serve cfg history []) limit (serve-IsFresh history [] no_counters) limited
        answered
      ∙ ap (λ n. some (decide (n + 1) limit (r.at / cfg.window) cfg.window))
          (serve-stored history [] (key_of cfg r) no_counters
            ∙ add_zero (hits cfg (key_of cfg r) history))
