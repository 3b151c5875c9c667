-- ===== src/Edge/Tests.antt =====
-- A class with a limit of two in a window of a minute, and three rules.
use mathlib.Core.List.{Memᴰ}
use smart_food_ops.Prelude.{
  ℕ, ◌+◌, ◌≤◌, ◌≡◌, refl, none, some, List, [], ◌∷◌, nat_beq, if◌then◌else◌, arith,
}
use smart_food_ops.Table.{lookup, insert}
use smart_food_ops.Edge.Limiter.{
  Config, Request, Reach, answers, unreachable, answer_lost, Key, decide, check, serve, eval_script,
}
use smart_food_ops.Edge.Window.{hits, check_counts}
use smart_food_ops.Edge.Bound.{allowed_in, allowed_bound}
use smart_food_ops.Edge.Routing.{
  Rule, auth_route, match_rule, best_of, text_beq, starts_with, slash,
}
use smart_food_ops.Edge.Match.{IsLongest, match_rule-IsLongest}

abbrev cfg : Config
cfg = record { limits = λ c. if nat_beq c 1 then some 2 else none; window = 60 }

abbrev asks : ℕ → ℕ → Reach → Request
asks now scope reach = record { at = now; asked_class = 1; asked_scope = scope; reach = reach }

abbrev history : List Request
history =
    asks 60 5 answers
    ∷ asks 61 6 answers
    ∷ asks 70 5 unreachable
    ∷ asks 80 5 answer_lost
    ∷ asks 119 5 answers
    ∷ []

abbrev key : Key
key = record { route_class = 1; scope = 5; bucket = 1 }

-- The lost answer counts too: the fourth request of the caller is the third hit.
lost_answer_counts :
    (check cfg
      (asks 119 5 answers)
      (serve cfg (asks 60 5 answers ∷ asks 80 5 answer_lost ∷ []) [])).0
    ≡ some (decide 3 2 1 60)
unfolding check serve eval_script lookup insert
lost_answer_counts = refl

check_counts_example :
    (check cfg (asks 119 5 answers) (serve cfg history [])).0
    ≡ some (decide (hits cfg key history + 1) 2 1 60)
check_counts_example = check_counts cfg (omega arith) history (asks 119 5 answers) 2 refl refl

allowed_bound_example : allowed_in cfg key history [] ≤ 2
allowed_bound_example = allowed_bound cfg (omega arith) key 2 history refl

abbrev rule : List ℕ → ℕ → Rule
rule prefix upstream = record {
  prefix = prefix;
  upstream = upstream;
  mode = auth_route;
  limit = none;
}

abbrev rules : List Rule
rules = rule (1 ∷ 2 ∷ []) 7 ∷ rule (1 ∷ 2 ∷ slash ∷ 3 ∷ []) 8 ∷ rule (1 ∷ []) 9 ∷ []

longer_prefix_wins :
    match_rule (1 ∷ 2 ∷ slash ∷ 3 ∷ slash ∷ 4 ∷ []) rules ≡ some (rule (1 ∷ 2 ∷ slash ∷ 3 ∷ []) 8)
unfolding best_of text_beq starts_with
longer_prefix_wins = refl

match_rule-IsLongest_example :
    IsLongest (1 ∷ 2 ∷ 5 ∷ []) (λ r. Memᴰ r rules) (match_rule (1 ∷ 2 ∷ 5 ∷ []) rules)
match_rule-IsLongest_example = match_rule-IsLongest (1 ∷ 2 ∷ 5 ∷ []) rules
