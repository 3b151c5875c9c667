-- ===== src/Payment/Moves.antt =====
-- The last transaction of a money operation keeps the books.
use smart_food_ops.Prelude.{
  ℕ, ◌≡◌, refl, subst, true, false, some, [], ◌++◌, nat_beq, nat_eq, arith, Option-cases, inl, inr,
  nat_beq_iff, Bool-cases,
}
use mathlib.Core.List.{append-nil}
use smart_food_ops.Table.{lookup, insert, lookup-insert, lookup-insert_self}
use smart_food_ops.Table.Rows.{AllRows-insert, AllRows-lookup}
use smart_food_ops.Payment.Rows.{status_beq, Payment, World, MoneyKey, moved}
use smart_food_ops.Payment.Service.{
  Move, capture, void, refund, movement, announcement, converge, settle, complete_key, outcome,
}
use smart_food_ops.Payment.Books.{
  entries_for, entries_for-append, owed, IsCharged, Books, advances, IsLaterRow, IsLaterRow-refl,
  Later, Later-same, Later-trans,
}

abbrev pub moved_row : Move → Payment → Payment
moved_row move p = record p { status = move.target }

-- The entries of a move are just what is owed after it and was not before.
pub record IsSound (move : Move) : Type 0 where
  pub exact :
      (order_id : ℕ) (p : Payment)
      → status_beq p.status move.expected ≡ true
      → owed order_id (some p) ++ movement move order_id p ≡ owed order_id (some (moved_row move p))
  pub own :
      (order_id : ℕ) (p : Payment)
      → entries_for order_id (movement move order_id p) ≡ movement move order_id p
  pub other :
      (order_id o : ℕ) (p : Payment)
      → nat_beq order_id o ≡ false
      → entries_for o (movement move order_id p) ≡ []
  pub forward :
      (p : Payment)
      → status_beq p.status move.expected ≡ true
      → advances p.status move.target ≡ true

pub capture-IsSound : IsSound capture
unfolding entries_for
capture-IsSound = record {
  exact = λ o p h. ground arith;
  own = λ o p. ground (arith, nat_beq_iff o o);
  other = λ order_id o p h. ground arith;
  forward = λ p h. ground arith;
}

pub void-IsSound : IsSound void
unfolding entries_for
void-IsSound = record {
  exact = λ o p h. ground arith;
  own = λ o p. ground (arith, nat_beq_iff o o);
  other = λ order_id o p h. ground arith;
  forward = λ p h. ground arith;
}

pub refund-IsSound : IsSound refund
unfolding entries_for
refund-IsSound = record {
  exact = λ o p h. ground arith;
  own = λ o p. ground (arith, nat_beq_iff o o);
  other = λ order_id o p h. ground arith;
  forward = λ p h. ground arith;
}

pub converge-Later :
    (key : MoneyKey) (order_id : ℕ) (w : World) → Later w (converge key order_id w).1
unfolding converge
converge-Later key order_id w = elim (Option-cases (lookup order_id w.payments)) [
  | inl absent ↦ rw (absent, converge) (Later-same w w refl refl refl)
  | inr (row, found) ↦ rw (found, converge) (Later-same w _ refl refl refl)
]

module _ (move : Move) (sound : IsSound move) (order_id : ℕ) where
  movement_same :
      (row p : Payment) → IsLaterRow row p → movement move order_id row ≡ movement move order_id p
  movement_same row p h = ground arith

  -- The write of an applied move, all three tables at once.
  abbrev pub applied : Payment → Payment → World → World
  applied row p w = record w {
    payments = insert order_id (moved_row move p) w.payments;
    ledger = w.ledger ++ movement move order_id row;
    outbox = w.outbox ++ announcement move order_id row;
  }

  applied_self :
      (row p : Payment) (w : World)
      → lookup order_id w.payments ≡ some p
      → status_beq p.status move.expected ≡ true
      → IsLaterRow row p
      → Books w
      → entries_for order_id (w.ledger ++ movement move order_id row)
        ≡ owed order_id (lookup order_id (insert order_id (moved_row move p) w.payments))
  applied_self row p w found fits since b =
      rw
        (
          lookup-insert_self,
          entries_for-append,
          movement_same row p since,
          sound.own order_id p,
          b.exact order_id,
          found,
        )
        (sound.exact order_id p fits)

  applied_exact :
      (row p : Payment) (w : World)
      → lookup order_id w.payments ≡ some p
      → status_beq p.status move.expected ≡ true
      → IsLaterRow row p
      → Books w
      → (o : ℕ)
      → entries_for o (w.ledger ++ movement move order_id row)
        ≡ owed o (lookup o (insert order_id (moved_row move p) w.payments))
  applied_exact row p w found fits since b o = elim (Bool-cases (nat_beq order_id o)) [
    | inl same ↦
        subst
          (λ k.
            entries_for k (w.ledger ++ movement move order_id row)
            ≡ owed k (lookup k (insert order_id (moved_row move p) w.payments)))
          ((nat_beq_iff order_id o).0 same) (applied_self row p w found fits since b)
    | inr other ↦
        rw
          (
            lookup-insert,
            other,
            entries_for-append,
            movement_same row p since,
            sound.other order_id o p other,
            append-nil,
          )
          (b.exact o)
  ]

  applied-Later :
      (row p : Payment) (w : World)
      → lookup order_id w.payments ≡ some p
      → status_beq p.status move.expected ≡ true
      → IsLaterRow row p
      → Later w (applied row p w)
  applied-Later row p w found fits since = record {
    rows = λ o q at. elim (Bool-cases (nat_beq order_id o)) [
      | inl same ↦ (
        moved_row move p,
        rw (lookup-insert, same) refl,
        ground (arith, nat_beq_iff order_id o, sound.forward p fits),
      )
      | inr other ↦ (q, rw (lookup-insert, other) at, IsLaterRow-refl q)
    ];
    ledger_grows = (movement move order_id row, refl);
    outbox_grows = (announcement move order_id row, refl);
    books = λ b. record {
      exact = applied_exact row p w found fits since b;
      charged =
          AllRows-insert IsCharged order_id (moved_row move p) w.payments
            (AllRows-lookup IsCharged order_id p w.payments b.charged found) b.charged;
    };
  }

  pub settle_moved :
      (row p : Payment) (w : World)
      → lookup order_id w.payments ≡ some p
      → status_beq p.status move.expected ≡ true
      → settle move order_id row w ≡ (
        outcome (some 200) (some (moved order_id move.target)) false,
        complete_key (order_id, move.op) 200 (moved order_id move.target) (applied row p w),
      )
  unfolding settle
  settle_moved row p w found fits = ground arith

  pub settle_raced :
      (row p : Payment) (w : World)
      → lookup order_id w.payments ≡ some p
      → status_beq p.status move.expected ≡ false
      → settle move order_id row w ≡ converge (order_id, move.op) order_id w
  unfolding settle
  settle_raced row p w found moved_on = ground arith

  pub settle-Later :
      (row p : Payment) (w : World)
      → lookup order_id w.payments ≡ some p
      → IsLaterRow row p
      → Later w (settle move order_id row w).1
  settle-Later row p w found since = elim (Bool-cases (status_beq p.status move.expected)) [
    | inl fits ↦ rw (settle_moved row p w found fits) (
        Later-trans w (applied row p w) _ (applied-Later row p w found fits since)
          (Later-same _ _ refl refl refl))
    | inr moved_on ↦
        rw (settle_raced row p w found moved_on) (converge-Later (order_id, move.op) order_id w)
  ]
