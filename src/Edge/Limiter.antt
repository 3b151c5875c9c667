-- ===== src/Edge/Limiter.antt =====
-- services/edge-bff/edge_bff/limiter.py: `RateLimiter.check` over the counters in Redis. A check and
-- Redis read the same clock, in seconds.
use smart_food_ops.Prelude.{
  ℕ, ◌+◌, ◌-◌, ◌*◌, ◌/◌, ◌≡◌, ◌↔◌, Bool, true, ◌&&◌, Option, none, some, List, [], ◌∷◌, ltb, leb,
  nat_beq, KeyEq, if◌then◌else◌, arith,
}
use smart_food_ops.Table.{Table, lookup, insert}

-- `rl:{route_class}:{scope}:{bucket}`
pub record Key : Type 0 where
  pub route_class : ℕ
  pub scope : ℕ
  pub bucket : ℕ

abbrev pub key_beq : Key → Key → Bool
key_beq a b =
    nat_beq a.route_class b.route_class && nat_beq a.scope b.scope && nat_beq a.bucket b.bucket

pub key_beq_iff : (a b : Key) → (key_beq a b ≡ true) ↔ (a ≡ b)
key_beq_iff a b = ground arith

instance abbrev pub key_eq : KeyEq Key
key_eq = record { same = key_beq; same_iff = key_beq_iff }

-- A counter and when it expires.
pub record Counter : Type 0 where
  pub count : ℕ
  pub expires_at : ℕ

abbrev pub Redis : Type 0
Redis = Table Key Counter

-- The counter under a key; an expired one is gone.
abbrev pub live_count : ℕ → Option Counter → Option Counter
live_count now none = none
live_count now (some counter) = if ltb now counter.expires_at then some counter else none

-- The script: INCR, and EXPIRE on the first hit only.
unfoldable pub eval_script : ℕ → Key → ℕ → Redis → ℕ × Redis
eval_script now key window redis = elim (live_count now (lookup key redis)) [
  | none ↦ (1, insert key (record { count = 1; expires_at = now + window }) redis)
  | some counter ↦
      (counter.count + 1, insert key (record counter { count = counter.count + 1 }) redis)
]

pub record Decision : Type 0 where
  pub allowed : Bool
  pub limit : ℕ
  pub remaining : ℕ
  pub reset_epoch : ℕ

-- The limit of each class, and the window.
pub record Config : Type 0 where
  pub limits : ℕ → Option ℕ
  pub window : ℕ

-- Redis answers, cannot be reached, or runs the script and its answer is lost.
pub data Reach : Type 0 where
  answers unreachable answer_lost : Reach

pub record Request : Type 0 where
  pub at : ℕ
  pub asked_class : ℕ
  pub asked_scope : ℕ
  pub reach : Reach

abbrev pub key_of : Config → Request → Key
key_of cfg r = record {
  route_class = r.asked_class;
  scope = r.asked_scope;
  bucket = r.at / cfg.window;
}

abbrev pub decide : ℕ → ℕ → ℕ → ℕ → Decision
decide count limit bucket window = record {
  allowed = leb count limit;
  limit = limit;
  remaining = limit - count;
  reset_epoch = (bucket + 1) * window;
}

-- `none` is no verdict: a class without a limit, or a Redis that fails, which lets the request pass.
unfoldable pub check : Config → Request → Redis → Option Decision × Redis
check cfg r redis = elim (cfg.limits r.asked_class) [
  | none ↦ (none, redis)
  | some limit ↦
      let (count, redis') = eval_script r.at (key_of cfg r) cfg.window redis in
      elim r.reach [
        | answers ↦ (some (decide count limit (r.at / cfg.window) cfg.window), redis')
        | unreachable ↦ (none, redis)
        | answer_lost ↦ (none, redis')
      ]
]

unfoldable pub serve : Config → List Request → Redis → Redis
serve cfg [] redis = redis
serve cfg (r ∷ rs) redis = serve cfg rs (check cfg r redis).1
