-- ===== src/Table/Rows.antt =====
-- A predicate on every row of a table, and what each statement does to it.
use smart_food_ops.Prelude.{
  ◌≡◌, Bool, true, some, [], ◌∷◌, arith, KeyEq, subst, sym, Option-cases, Bool-cases, inl, inr,
}
use smart_food_ops.Table.{
  Table, lookup, insert, erase, update_where, update_where_absent, update_where_missed,
  update_where_matched,
}
use smart_food_ops.Table.Keyed.{delete_where}

abbrev pub AllRows : {K V : Type 0} → (V → Type 0) → Table K V → Type 0
AllRows P [] = Unit
AllRows P ((_, v) ∷ t) = P v × AllRows P t

pub AllRows-map :
    {K V : Type 0} (P Q : V → Type 0) (t : Table K V)
    → ((v : V) → P v → Q v)
    → AllRows P t
    → AllRows Q t
AllRows-map P Q [] f h = tt
AllRows-map P Q ((k, v) ∷ t) f h = (f v h.0, AllRows-map P Q t f h.1)

module _ {K V : Type 0} (P : V → Type 0) where
  pub AllRows-delete_where :
      (cond : V → Bool) (t : Table K V) → AllRows P t → AllRows P (delete_where cond t).1
  unfolding delete_where
  AllRows-delete_where cond [] h = tt
  AllRows-delete_where cond ((j, w) ∷ t) h = ground (arith, AllRows-delete_where cond t h.1)

module _ {K V : Type 0} ⦃e : KeyEq K⦄ (P : V → Type 0) where
  pub AllRows-lookup : (k : K) (v : V) (t : Table K V) → AllRows P t → lookup k t ≡ some v → P v
  unfolding lookup
  AllRows-lookup k v [] h q = cc
  AllRows-lookup k v ((j, w) ∷ t) h q = ground (arith, AllRows-lookup k v t h.1)

  pub AllRows-insert :
      (k : K) (v : V) (t : Table K V) → P v → AllRows P t → AllRows P (insert k v t)
  unfolding insert
  AllRows-insert k v [] p h = (p, tt)
  AllRows-insert k v ((j, w) ∷ t) p h = ground (arith, AllRows-insert k v t p h.1)

  pub AllRows-erase : (k : K) (t : Table K V) → AllRows P t → AllRows P (erase k t)
  unfolding erase
  AllRows-erase k [] h = tt
  AllRows-erase k ((j, w) ∷ t) h = ground (arith, AllRows-erase k t h.1)

  pub AllRows-update_where :
      (k : K) (cond : V → Bool) (f : V → V) (t : Table K V)
      → ((v : V) → P v → cond v ≡ true → P (f v))
      → AllRows P t
      → AllRows P (update_where k cond f t).1
  AllRows-update_where k cond f t keeps h = elim (Option-cases (lookup k t)) [
    | inl absent ↦ subst (λ r. AllRows P r.1) (sym (update_where_absent k cond f t absent)) h
    | inr (v, found) ↦ elim (Bool-cases (cond v)) [
      | inl holds ↦
          subst (λ r. AllRows P r.1) (sym (update_where_matched k cond f t v found holds))
            (AllRows-insert k (f v) t (keeps v (AllRows-lookup k v t h found) holds) h)
      | inr fails ↦
          subst (λ r. AllRows P r.1) (sym (update_where_missed k cond f t v found fails)) h
    ]
  ]
