-- ===== src/Table/Keyed.antt =====
-- The primary key: no key is listed twice. A delete by a condition on the row, and how many it took.
use smart_food_ops.Prelude.{
  ℕ, suc, ◌≡◌, refl, Bool, Option, none, some, [], ◌∷◌, arith, KeyEq, if◌then◌else◌,
}
use smart_food_ops.Table.{Table, lookup, insert, erase, lookup-insert, lookup-erase}

-- What a delete leaves under a key.
abbrev pub kept : {V : Type 0} → (V → Bool) → Option V → Option V
kept cond none = none
kept cond (some v) = if cond v then none else some v

module _ {K V : Type 0} where
  -- DELETE … WHERE cond: the row count, and the table after.
  unfoldable pub delete_where : (V → Bool) → Table K V → ℕ × Table K V
  delete_where cond [] = (0, [])
  delete_where cond ((k, v) ∷ t) =
      let (n, t') = delete_where cond t in if cond v then (suc n, t') else (n, (k, v) ∷ t')

module _ {K V : Type 0} ⦃e : KeyEq K⦄ where
  abbrev pub IsKeyed : Table K V → Type 0
  IsKeyed [] = Unit
  IsKeyed ((k, _) ∷ t) = (lookup k t ≡ none) × IsKeyed t

  pub insert-IsKeyed : (k : K) (v : V) (t : Table K V) → IsKeyed t → IsKeyed (insert k v t)
  unfolding lookup insert
  insert-IsKeyed k v [] h = (refl, tt)
  insert-IsKeyed k v ((j, w) ∷ t) h =
      ground
        (arith, insert-IsKeyed k v t h.1, lookup-insert k j v t, e.same_iff j k, e.same_iff k j)

  pub erase-IsKeyed : (k : K) (t : Table K V) → IsKeyed t → IsKeyed (erase k t)
  unfolding erase
  erase-IsKeyed k [] h = tt
  erase-IsKeyed k ((j, w) ∷ t) h =
      ground (arith, erase-IsKeyed k t h.1, lookup-erase k j t, e.same_iff j k, e.same_iff k j)

  pub lookup-delete_where :
      (cond : V → Bool) (k : K) (t : Table K V)
      → IsKeyed t
      → lookup k (delete_where cond t).1 ≡ kept cond (lookup k t)
  unfolding lookup delete_where
  lookup-delete_where cond k [] h = refl
  lookup-delete_where cond k ((j, w) ∷ t) h =
      ground (arith, lookup-delete_where cond k t h.1, e.same_iff j k)

  pub delete_where-IsKeyed :
      (cond : V → Bool) (t : Table K V) → IsKeyed t → IsKeyed (delete_where cond t).1
  unfolding delete_where
  delete_where-IsKeyed cond [] h = tt
  delete_where-IsKeyed cond ((j, w) ∷ t) h =
      ground (arith, delete_where-IsKeyed cond t h.1, lookup-delete_where cond j t h.1)
