-- ===== src/Table.antt =====
-- A database table with a primary key: an association list from keys to rows, in insertion order,
-- and the SQL statements that the services issue against it by key.
pub mod Sum
pub mod Keyed
pub mod Rows
use smart_food_ops.Prelude.{
  ◌≡◌, refl, Bool, true, false, Option, none, some, List, [], ◌∷◌, arith, KeyEq, ◌==◌,
  if◌then◌else◌, Bool-cases, Option-cases, inl, inr,
}

abbrev pub Table : Type 0 → Type 0 → Type 0
Table K V = List (K × V)

-- What an update under a condition leaves of a row.
abbrev pub updated : {V : Type 0} → (V → Bool) → (V → V) → Option V → Option V
updated cond f none = none
updated cond f (some v) = some (if cond v then f v else v)

module _ {K V : Type 0} ⦃e : KeyEq K⦄ where
  -- SELECT … WHERE key = :k
  unfoldable pub lookup : K → Table K V → Option V
  lookup k [] = none
  lookup k ((j, v) ∷ t) = if j == k then some v else lookup k t

  -- The row under a key, written whole; a new key goes to the end.
  unfoldable pub insert : K → V → Table K V → Table K V
  insert k v [] = (k, v) ∷ []
  insert k v ((j, w) ∷ t) = if j == k then (k, v) ∷ t else (j, w) ∷ insert k v t

  -- DELETE … WHERE key = :k
  unfoldable pub erase : K → Table K V → Table K V
  erase k [] = []
  erase k ((j, w) ∷ t) = if j == k then erase k t else (j, w) ∷ erase k t

  -- INSERT: `none` is the integrity error of a taken primary key.
  abbrev pub insert_new : K → V → Table K V → Option (Table K V)
  insert_new k v t = elim (lookup k t) [ none ↦ some (insert k v t) | some _ ↦ none ]

  -- UPDATE … WHERE key = :k AND cond: whether a row matched, and the table after.
  abbrev pub update_where : K → (V → Bool) → (V → V) → Table K V → Bool × Table K V
  update_where k cond f t = elim (lookup k t) [
    | none ↦ (false, t)
    | some v ↦ if cond v then (true, insert k (f v) t) else (false, t)
  ]

  pub lookup-insert :
      (k j : K) (v : V) (t : Table K V)
      → lookup j (insert k v t) ≡ (if k == j then some v else lookup j t)
  unfolding lookup insert
  lookup-insert k j v [] = refl
  lookup-insert k j v ((i, w) ∷ t) =
      ground (arith, e.same_iff k j, e.same_iff i k, e.same_iff i j, lookup-insert k j v t)

  pub lookup-insert_self : (k : K) (v : V) (t : Table K V) → lookup k (insert k v t) ≡ some v
  lookup-insert_self k v t = ground (arith, lookup-insert k k v t, e.same_iff k k)

  pub lookup-erase :
      (k j : K) (t : Table K V) → lookup j (erase k t) ≡ (if k == j then none else lookup j t)
  unfolding lookup erase
  lookup-erase k j [] = ground arith
  lookup-erase k j ((i, w) ∷ t) =
      ground (arith, e.same_iff k j, e.same_iff i k, e.same_iff i j, lookup-erase k j t)

  pub lookup-update_where :
      (k j : K) (cond : V → Bool) (f : V → V) (t : Table K V)
      → lookup j (update_where k cond f t).1
        ≡ (if k == j then updated cond f (lookup j t) else lookup j t)
  lookup-update_where k j cond f t = elim (Option-cases (lookup k t)) [
    | inl absent ↦ ground (arith, e.same_iff k j)
    | inr (v, found) ↦ ground (arith, e.same_iff k j, lookup-insert k j (f v) t)
  ]

  pub lookup-update_where_self :
      (k : K) (cond : V → Bool) (f : V → V) (t : Table K V)
      → lookup k (update_where k cond f t).1 ≡ updated cond f (lookup k t)
  lookup-update_where_self k cond f t =
      ground (arith, lookup-update_where k k cond f t, e.same_iff k k)

  pub update_where_absent :
      (k : K) (cond : V → Bool) (f : V → V) (t : Table K V)
      → lookup k t ≡ none
      → update_where k cond f t ≡ (false, t)
  update_where_absent k cond f t absent = ground arith

  pub update_where_missed :
      (k : K) (cond : V → Bool) (f : V → V) (t : Table K V) (v : V)
      → lookup k t ≡ some v
      → cond v ≡ false
      → update_where k cond f t ≡ (false, t)
  update_where_missed k cond f t v found fails = ground arith

  pub update_where_matched :
      (k : K) (cond : V → Bool) (f : V → V) (t : Table K V) (v : V)
      → lookup k t ≡ some v
      → cond v ≡ true
      → update_where k cond f t ≡ (true, insert k (f v) t)
  update_where_matched k cond f t v found holds = ground arith
