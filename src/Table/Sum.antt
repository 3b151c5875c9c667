-- ===== src/Table/Sum.antt =====
-- A number summed over the rows of a table, and how a write of one row changes it.
use smart_food_ops.Prelude.{
  ℕ, ◌+◌, ◌≡◌, sym, subst, Bool, true, none, some, [], ◌∷◌, arith, KeyEq, if◌then◌else◌,
  Option-cases, Bool-cases, inl, inr,
}
use smart_food_ops.Table.{
  Table, lookup, insert, update_where, update_where_absent, update_where_missed,
  update_where_matched,
}

module _ {K V : Type 0} where
  abbrev pub sum_by : (V → ℕ) → Table K V → ℕ
  sum_by f [] = 0
  sum_by f ((_, v) ∷ t) = f v + sum_by f t

module _ {K V : Type 0} ⦃e : KeyEq K⦄ (f : V → ℕ) where
  pub sum_by-insert_new :
      (k : K) (v : V) (t : Table K V)
      → lookup k t ≡ none
      → sum_by f (insert k v t) ≡ f v + sum_by f t
  unfolding lookup insert
  sum_by-insert_new k v [] h = omega arith
  sum_by-insert_new k v ((j, w) ∷ t) h = ground (arith, sum_by-insert_new k v t)

  pub sum_by-insert :
      (k : K) (v old : V) (t : Table K V)
      → lookup k t ≡ some old
      → sum_by f (insert k v t) + f old ≡ f v + sum_by f t
  unfolding lookup insert
  sum_by-insert k v old [] h = cc
  sum_by-insert k v old ((j, w) ∷ t) h = ground (arith, sum_by-insert k v old t)

  -- An update that takes `a` and gives `b` on every row that it may match.
  pub sum_by-update_where :
      (k : K) (cond : V → Bool) (g : V → V) (t : Table K V) (a b : ℕ)
      → ((v : V) → cond v ≡ true → f (g v) + a ≡ f v + b)
      → let (fired, t') = update_where k cond g t in
        sum_by f t' + (if fired then a else 0) ≡ sum_by f t + (if fired then b else 0)
  sum_by-update_where k cond g t a b effect = elim (Option-cases (lookup k t)) [
    | inl absent ↦
        subst (λ r. sum_by f r.1 + (if r.0 then a else 0) ≡ sum_by f t + (if r.0 then b else 0))
          (sym (update_where_absent k cond g t absent)) (omega arith)
    | inr (v, found) ↦ elim (Bool-cases (cond v)) [
      | inl met ↦
          subst (λ r. sum_by f r.1 + (if r.0 then a else 0) ≡ sum_by f t + (if r.0 then b else 0))
            (sym (update_where_matched k cond g t v found met))
            (omega (arith, effect v met, sum_by-insert k (g v) v t found))
      | inr unmet ↦
          subst (λ r. sum_by f r.1 + (if r.0 then a else 0) ≡ sum_by f t + (if r.0 then b else 0))
            (sym (update_where_missed k cond g t v found unmet)) (omega arith)
    ]
  ]
