-- ===== src/Outbox/Select.antt =====
-- What the select of `drain_once` of libs/smartfood-outbox/smartfood_outbox/poller.py takes from the
-- table, and what the mark leaves of a row.
use mathlib.Core.List.{Memᴰ}
use mathlib.Core.List.Memᴰ
use smart_food_ops.Prelude.{
  ℕ, zero, suc, ◌≡◌, refl, ap, ◌∙◌, subst, Bool, true, false, not, ◌&&◌, List, [], ◌∷◌, take, arith,
  nat_beq, nat_beq_iff, Bool-cases, inl, inr, ◌⊎◌,
}
use smart_food_ops.Outbox.Rows.{Row, has_id}
use smart_food_ops.Outbox.Poller.{
  is_pending, is_before, insert_row, order_rows, pending, marked_row, mark,
}

insert_row-mem :
    (r row : Row) (rows : List Row) → Memᴰ r (insert_row row rows) → (r ≡ row) ⊎ Memᴰ r rows
unfolding insert_row
insert_row-mem r row [] m = Memᴰ.cases_cons m
insert_row-mem r row (first ∷ rest) m = elim (Bool-cases (is_before row first)) [
  | inl before ↦ Memᴰ.cases_cons (subst (Memᴰ r) (insert_before before) m)
  | inr after ↦ elim (Memᴰ.cases_cons (subst (Memᴰ r) (insert_after after) m)) [
    | inl eq ↦ inr (Memᴰ.head eq)
    | inr deeper ↦ elim (insert_row-mem r row rest deeper) [
      | inl eq ↦ inl eq
      | inr found ↦ inr (Memᴰ.tail found)
    ]
  ]
]
  where
    insert_before : is_before row first ≡ true → insert_row row (first ∷ rest) ≡ row ∷ first ∷ rest
    insert_before before = ground arith

    insert_after :
        is_before row first ≡ false → insert_row row (first ∷ rest) ≡ first ∷ insert_row row rest
    insert_after after = ground arith

order_rows-mem : (r : Row) (rows : List Row) → Memᴰ r (order_rows rows) → Memᴰ r rows
unfolding order_rows
order_rows-mem r [] m = m
order_rows-mem r (row ∷ rows) m = elim (insert_row-mem r row (order_rows rows) m) [
  | inl eq ↦ Memᴰ.head eq
  | inr deeper ↦ Memᴰ.tail (order_rows-mem r rows deeper)
]

take-mem : {A : Type 0} (n : ℕ) (a : A) (xs : List A) → Memᴰ a (take n xs) → Memᴰ a xs
take-mem zero a xs m = elim m [ ]
take-mem (suc n) a [] m = elim m [ ]
take-mem (suc n) a (x ∷ xs) m = elim (Memᴰ.cases_cons m) [
  | inl eq ↦ Memᴰ.head eq
  | inr deeper ↦ Memᴰ.tail (take-mem n a xs deeper)
]

pending-mem :
    (locked : ℕ → Bool) (r : Row) (rows : List Row)
    → Memᴰ r (pending locked rows)
    → Memᴰ r rows × (is_pending r ≡ true)
unfolding pending
pending-mem locked r [] m = elim m [ ]
pending-mem locked r (row ∷ rows) m = elim (Bool-cases (is_pending row && not (locked row.id))) [
  | inr skipped ↦
      let (deeper, waits) = pending-mem locked r rows (subst (Memᴰ r) (pending_skips skipped) m) in
      (Memᴰ.tail deeper, waits)
  | inl taken ↦ elim (Memᴰ.cases_cons (subst (Memᴰ r) (pending_takes taken) m)) [
    | inl eq ↦
        (Memᴰ.head eq, ap is_pending eq ∙ first_true (is_pending row) (not (locked row.id)) taken)
    | inr later ↦ let (deeper, waits) = pending-mem locked r rows later in (Memᴰ.tail deeper, waits)
  ]
]
  where
    pending_skips :
        is_pending row && not (locked row.id) ≡ false
        → pending locked (row ∷ rows) ≡ pending locked rows
    pending_skips skipped = ground arith

    pending_takes :
        is_pending row && not (locked row.id) ≡ true
        → pending locked (row ∷ rows) ≡ row ∷ pending locked rows
    pending_takes taken = ground arith

    first_true : (a b : Bool) → a && b ≡ true → a ≡ true
    first_true a b h = ground arith

-- A row of the batch is a row of the table that waits.
pub batch-mem :
    (n : ℕ) (locked : ℕ → Bool) (r : Row) (rows : List Row)
    → Memᴰ r (take n (order_rows (pending locked rows)))
    → Memᴰ r rows × (is_pending r ≡ true)
batch-mem n locked r rows m =
    pending-mem locked r rows
      (order_rows-mem r (pending locked rows) (take-mem n r (order_rows (pending locked rows)) m))

-- An id of the list is the id of one of its rows.
pub has_id-mem :
    (id : ℕ) (rows : List Row) → has_id id rows ≡ true → (r : Row) × Memᴰ r rows × (r.id ≡ id)
unfolding has_id
has_id-mem id [] h = cc
has_id-mem id (row ∷ rows) h = elim (Bool-cases (nat_beq row.id id)) [
  | inl same ↦ (row, Memᴰ.head refl, (nat_beq_iff row.id id).0 same)
  | inr other ↦
      let (r, found, eq) = has_id-mem id rows (ground (arith, h, other)) in (r, Memᴰ.tail found, eq)
]

pub mem-has_id : (r : Row) (rows : List Row) → Memᴰ r rows → has_id r.id rows ≡ true
unfolding has_id
mem-has_id r [] m = elim m [ ]
mem-has_id r (row ∷ rows) (Memᴰ.head eq) =
    ground (arith, nat_beq_iff row.id r.id, ap (λ (x : Row). x.id) eq)
mem-has_id r (row ∷ rows) (Memᴰ.tail m) = ground (arith, mem-has_id r rows m)

-- A row of the marked table is a row of the table, marked.
pub mark-mem :
    (now : ℕ) (batch rows : List Row) (r : Row)
    → Memᴰ r (mark now batch rows)
    → (old : Row) × Memᴰ old rows × (r ≡ marked_row now batch old)
unfolding mark
mark-mem now batch [] r m = elim m [ ]
mark-mem now batch (row ∷ rows) r m = elim (Memᴰ.cases_cons m) [
  | inl eq ↦ (row, Memᴰ.head refl, eq)
  | inr later ↦ let (old, found, eq) = mark-mem now batch rows r later in (old, Memᴰ.tail found, eq)
]
