-- ===== src/Edge/Routing.antt =====
-- services/edge-bff/edge_bff/routing.py: the longest prefix that matches a path, who may call it and
-- which budget it draws from. A path is the list of its code points.
use smart_food_ops.Prelude.{
  ℕ, Bool, true, false, ◌&&◌, ◌||◌, not, Option, none, some, List, [], ◌∷◌, ◌++◌, length, ltb,
  nat_beq, if◌then◌else◌,
}

pub data RouteMode : Type 0 where
  public_route public_read auth_route : RouteMode

-- A `ResolvedRule`, and a `Rule` before its upstream is bound.
pub record Rule : Type 0 where
  pub prefix : List ℕ
  pub upstream : ℕ
  pub mode : RouteMode
  pub limit : Option ℕ

-- `resolve`
unfoldable pub resolve : (ℕ → ℕ) → List Rule → List Rule
resolve settings [] = []
resolve settings (rule ∷ rules) =
    record rule { upstream = settings rule.upstream } ∷ resolve settings rules

unfoldable pub text_beq : List ℕ → List ℕ → Bool
text_beq [] [] = true
text_beq (c ∷ text) (d ∷ other) = nat_beq c d && text_beq text other
text_beq _ _ = false

-- `path.startswith(start)`
unfoldable pub starts_with : List ℕ → List ℕ → Bool
starts_with path [] = true
starts_with [] (c ∷ start) = false
starts_with (d ∷ path) (c ∷ start) = nat_beq d c && starts_with path start

-- The code point of "/".
abbrev pub slash : ℕ
slash = 47

abbrev pub covers : List ℕ → Rule → Bool
covers path rule = text_beq path rule.prefix || starts_with path (rule.prefix ++ slash ∷ [])

abbrev pub is_better : Rule → Option Rule → Bool
is_better rule none = true
is_better rule (some best) = ltb (length best.prefix) (length rule.prefix)

unfoldable pub best_of : List ℕ → List Rule → Option Rule → Option Rule
best_of path [] best = best
best_of path (rule ∷ rules) best =
    best_of path rules (if covers path rule && is_better rule best then some rule else best)

-- `match`
abbrev pub match_rule : List ℕ → List Rule → Option Rule
match_rule path rules = best_of path rules none

-- The method in upper case is GET or HEAD.
pub data Method : Type 0 where
  get_or_head other_method : Method

abbrev pub is_read : Method → Bool
is_read get_or_head = true
is_read other_method = false

abbrev pub needs_auth : RouteMode → Method → Bool
needs_auth public_route method = false
needs_auth public_read method = not (is_read method)
needs_auth auth_route method = true

pub data LimitClass : Type 0 where
  tagged : ℕ → LimitClass
  read_class write_class : LimitClass

abbrev pub limit_class_for : Rule → Method → LimitClass
limit_class_for rule method = elim rule.limit [
  | some tag ↦ tagged tag
  | none ↦ if is_read method then read_class else write_class
]
