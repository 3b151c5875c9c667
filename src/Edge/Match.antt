-- ===== src/Edge/Match.antt =====
-- The longest prefix wins: `match` of services/edge-bff/edge_bff/routing.py.
use mathlib.Core.List.{Memᴰ}
use smart_food_ops.Prelude.{
  ℕ, ◌≤◌, ◌≡◌, refl, sym, subst, true, false, ◌&&◌, Option, none, some, List, [], ◌∷◌, length,
  arith, if◌then◌else◌, Bool-cases, inl, inr, ◌⊎◌,
}
use smart_food_ops.Edge.Routing.{Rule, covers, is_better, best_of, match_rule}

-- The result is a rule among `Among` that covers the path, and none of them that does is longer; or
-- none of them covers it.
abbrev pub IsLongest : List ℕ → (Rule → Type 0) → Option Rule → Type 0
IsLongest path Among none = (r : Rule) → Among r → covers path r ≡ false
IsLongest path Among (some best) =
    Among best
    × (covers path best ≡ true)
    × ((r : Rule) → Among r → covers path r ≡ true → length r.prefix ≤ length best.prefix)

IsLongest-map :
    (path : List ℕ) (A B : Rule → Type 0) (result : Option Rule)
    → ((r : Rule) → A r → B r)
    → ((r : Rule) → B r → A r)
    → IsLongest path A result
    → IsLongest path B result
IsLongest-map path A B none to from longest = λ r among. longest r (from r among)
IsLongest-map path A B (some best) to from (among, covered, longest) =
    (to best among, covered, λ r other. longest r (from r other))

abbrev With : (Rule → Type 0) → Rule → Rule → Type 0
With Among rule r = Among r ⊎ (r ≡ rule)

better-IsLongest :
    (path : List ℕ) (Among : Rule → Type 0) (rule : Rule) (best : Option Rule)
    → IsLongest path Among best
    → covers path rule && is_better rule best ≡ true
    → IsLongest path (With Among rule) (some rule)
better-IsLongest path Among rule none longest wins = (
  inr refl,
  ground (arith, wins),
  λ r among covered. elim among [
    | inl old ↦ let missed = longest r old in cc
    | inr same ↦ subst (λ (x : Rule). length r.prefix ≤ length x.prefix) same (omega arith)
  ],
)
better-IsLongest path Among rule (some best) (listed, covered_best, longest) wins = (
  inr refl,
  ground (arith, wins),
  λ r among covered. elim among [
    | inl old ↦ let shorter = longest r old covered in ground (arith, wins, shorter)
    | inr same ↦ subst (λ (x : Rule). length r.prefix ≤ length x.prefix) same (omega arith)
  ],
)

kept-IsLongest :
    (path : List ℕ) (Among : Rule → Type 0) (rule : Rule) (best : Option Rule)
    → IsLongest path Among best
    → covers path rule && is_better rule best ≡ false
    → IsLongest path (With Among rule) best
kept-IsLongest path Among rule none longest loses = λ r among. elim among [
  | inl old ↦ longest r old
  | inr same ↦ subst (λ x. covers path x ≡ false) (sym same) (ground (arith, loses))
]
kept-IsLongest path Among rule (some best) (listed, covered_best, longest) loses = (
  inl listed,
  covered_best,
  λ r among covered. elim among [
    | inl old ↦ longest r old covered
    | inr same ↦
        let covers_rule = subst (λ x. covers path x ≡ true) same covered in
        subst (λ (x : Rule). length x.prefix ≤ length best.prefix) (sym same)
          (ground (arith, loses, covers_rule))
  ],
)

step-IsLongest :
    (path : List ℕ) (Among : Rule → Type 0) (rule : Rule) (best : Option Rule)
    → IsLongest path Among best
    → IsLongest path
        (With Among rule)
        (if covers path rule && is_better rule best then some rule else best)
step-IsLongest path Among rule best longest =
    elim (Bool-cases (covers path rule && is_better rule best)) [
      | inl wins ↦
          subst (λ b. IsLongest path (With Among rule) (if b then some rule else best)) (sym wins)
            (better-IsLongest path Among rule best longest wins)
      | inr loses ↦
          subst (λ b. IsLongest path (With Among rule) (if b then some rule else best)) (sym loses)
            (kept-IsLongest path Among rule best longest loses)
    ]

best_of-IsLongest :
    (path : List ℕ) (Among : Rule → Type 0) (rules : List Rule) (best : Option Rule)
    → IsLongest path Among best
    → IsLongest path (λ r. Among r ⊎ Memᴰ r rules) (best_of path rules best)
unfolding best_of
best_of-IsLongest path Among [] best longest =
    IsLongest-map path Among (λ r. Among r ⊎ Memᴰ r []) best (λ r among. inl among)
      (λ r among. elim among [ inl old ↦ old | inr m ↦ elim m [ ] ]) longest
best_of-IsLongest path Among (rule ∷ rules) best longest =
    let next = if covers path rule && is_better rule best then some rule else best in
    IsLongest-map path (λ r. With Among rule r ⊎ Memᴰ r rules)
      (λ r. Among r ⊎ Memᴰ r (rule ∷ rules)) (best_of path rules next)
      (λ r among. elim among [
        | inl (inl old) ↦ inl old
        | inl (inr same) ↦ inr (Memᴰ.head same)
        | inr later ↦ inr (Memᴰ.tail later)
      ])
      (λ r among. elim among [
        | inl old ↦ inl (inl old)
        | inr (Memᴰ.head same) ↦ inl (inr same)
        | inr (Memᴰ.tail later) ↦ inr later
      ])
      (best_of-IsLongest path (With Among rule) rules next
        (step-IsLongest path Among rule best longest))

-- A path goes to a rule of the table whose prefix covers it, and no rule that covers it has a longer
-- prefix; it goes nowhere only when no rule covers it.
pub match_rule-IsLongest :
    (path : List ℕ) (rules : List Rule) → IsLongest path (λ r. Memᴰ r rules) (match_rule path rules)
match_rule-IsLongest path rules =
    IsLongest-map path (λ r. Never r ⊎ Memᴰ r rules) (λ r. Memᴰ r rules) (match_rule path rules)
      (λ r among. elim among [ inl never ↦ elim never [ ] | inr listed ↦ listed ])
      (λ r listed. inr listed) (best_of-IsLongest path Never rules none (λ r never. elim never [ ]))
  where
    Never : Rule → Type 0
    Never r = Memᴰ r []
