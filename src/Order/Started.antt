-- ===== src/Order/Started.antt =====
-- What no placement undoes: a workflow's placement and an order's row, in
-- services/order/order/domain/service.py.
use smart_food_ops.Prelude.{
  ℕ, ◌≡◌, refl, sym, ap, ◌∙◌, subst, none, some, nat_beq, nat_beq_iff, nat_eq, arith, Option-cases,
  Bool-cases, inl, inr, ◌⊎◌,
}
use smart_food_ops.Table.{Table, lookup, insert, lookup-insert, lookup-insert_self}
use smart_food_ops.Order.Rows.{Order, PlacementInput, World}
use smart_food_ops.Order.Activities.{create_order, placed_row}
use smart_food_ops.Order.Writes.{create_order_refused, create_order-orders}
use smart_food_ops.Order.Placement.{Placing, start}

-- Each workflow has the id of its placement, and each row is the one that its workflow placed.
pub record IsPlaced (s : Placing) : Type 0 where
  pub own_id : (id : ℕ) (p : PlacementInput) → lookup id s.started ≡ some p → p.order_id ≡ id
  pub rows :
      (id : ℕ) (row : Order)
      → lookup id s.db.orders ≡ some row
      → (p : PlacementInput) × (lookup id s.started ≡ some p) × (row ≡ placed_row p)

-- A workflow keeps its placement, a row stays, and the invariant is kept.
pub record Step (s s' : Placing) : Type 0 where
  pub started :
      (id : ℕ) (p : PlacementInput) → lookup id s.started ≡ some p → lookup id s'.started ≡ some p
  pub stays :
      (id : ℕ) (row : Order) → lookup id s.db.orders ≡ some row → lookup id s'.db.orders ≡ some row
  pub sound : IsPlaced s → IsPlaced s'

pub same-Step : (s : Placing) → Step s s
same-Step s = record { started = λ id p h. h; stays = λ id row h. h; sound = λ h. h }

pub next-Step : (a b c : Placing) → Step a b → Step b c → Step a c
next-Step a b c f g = record {
  started = λ id p h. g.started id p (f.started id p h);
  stays = λ id row h. g.stays id row (f.stays id row h);
  sound = λ h. g.sound (f.sound h);
}

-- `create_order` adds the row of its placement, or nothing.
pub create_order-cases :
    (p : PlacementInput) (w : World)
    → ((create_order p w).1.orders ≡ w.orders)
      ⊎ ((lookup p.order_id w.orders ≡ none)
          × ((create_order p w).1.orders ≡ insert p.order_id (placed_row p) w.orders))
create_order-cases p w = elim (Option-cases (lookup p.order_id w.orders)) [
  | inr (row, found) ↦ inl (ap (λ (x : World). x.orders) (create_order_refused p w (rw found refl)))
  | inl absent ↦ elim (Option-cases (lookup p.order_id w.order_items)) [
    | inr (lines, found) ↦
        inl (ap (λ (x : World). x.orders) (create_order_refused p w (rw (absent, found) refl)))
    | inl free ↦ inr (absent, create_order-orders p w absent free)
  ]
]

insert_stays :
    {V : Type 0} (k id : ℕ) (v row : V) (t : Table ℕ V)
    → lookup k t ≡ none
    → lookup id t ≡ some row
    → lookup id (insert k v t) ≡ some row
insert_stays k id v row t absent found = ground (arith, nat_beq_iff k id, lookup-insert k id v t)

insert_rows :
    {V : Type 0} (k id : ℕ) (v row : V) (t : Table ℕ V)
    → lookup id (insert k v t) ≡ some row
    → ((k ≡ id) × (row ≡ v)) ⊎ (lookup id t ≡ some row)
insert_rows k id v row t found = elim (Bool-cases (nat_beq k id)) [
  | inl same ↦ inl ((nat_beq_iff k id).0 same, ground (arith, found, same, lookup-insert k id v t))
  | inr other ↦ inr (ground (arith, found, other, lookup-insert k id v t))
]

added-rows :
    (p : PlacementInput) (key : ℕ) (s : Placing)
    → lookup key s.started ≡ some p
    → IsPlaced s
    → (id : ℕ) (row : Order)
    → ((p.order_id ≡ id) × (row ≡ placed_row p)) ⊎ (lookup id s.db.orders ≡ some row)
    → (q : PlacementInput) × (lookup id s.started ≡ some q) × (row ≡ placed_row q)
added-rows p key s mine h id row (inr old) = h.rows id row old
added-rows p key s mine h id row (inl (here, eq)) =
    (p, subst (λ k. lookup k s.started ≡ some p) (sym (h.own_id key p mine) ∙ here) mine, eq)

-- A workflow that was started creates its row.
pub create-Step :
    (p : PlacementInput) (key : ℕ) (s : Placing)
    → lookup key s.started ≡ some p
    → Step s (record s { db = (create_order p s.db).1 })
create-Step p key s mine = elim (create_order-cases p s.db) [
  | inl same ↦ record {
    started = λ id q h. h;
    stays = λ id row h. ap (lookup id) same ∙ h;
    sound = λ h. record {
      own_id = h.own_id;
      rows = λ id row found. h.rows id row (sym (ap (lookup id) same) ∙ found);
    };
  }
  | inr (absent, added) ↦ record {
    started = λ id q h. h;
    stays = λ id row h.
        ap (lookup id) added ∙ insert_stays p.order_id id (placed_row p) row s.db.orders absent h;
    sound = λ h. record {
      own_id = h.own_id;
      rows = λ id row found. added-rows p key s mine h id row (
          insert_rows p.order_id id (placed_row p) row s.db.orders
            (sym (ap (lookup id) added) ∙ found));
    };
  }
]

first-Step :
    (p : PlacementInput) (s : Placing)
    → lookup p.order_id s.started ≡ none
    → Step s (record s { started = insert p.order_id p s.started })
first-Step p s absent = record {
  started = λ id q h. insert_stays p.order_id id p q s.started absent h;
  stays = λ id row h. h;
  sound = λ h. record {
    own_id = λ id q found. owned h id q (insert_rows p.order_id id p q s.started found);
    rows = λ id row found.
        let (q, began, eq) = h.rows id row found in
        (q, insert_stays p.order_id id p q s.started absent began, eq);
  };
}
  where
    owned :
        IsPlaced s
        → (id : ℕ) (q : PlacementInput)
        → ((p.order_id ≡ id) × (q ≡ p)) ⊎ (lookup id s.started ≡ some q)
        → q.order_id ≡ id
    owned h id q (inr old) = h.own_id id q old
    owned h id q (inl (here, eq)) = ap (λ (x : PlacementInput). x.order_id) eq ∙ here

pub start-Step :
    (p : PlacementInput) (s : Placing) → Step s (record s { started = (start p s.started).1 })
start-Step p s = elim (Option-cases (lookup p.order_id s.started)) [
  | inl absent ↦
      subst (λ (r : PlacementInput × Table ℕ PlacementInput). Step s (record s { started = r.1 }))
        (sym (start_new absent)) (first-Step p s absent)
  | inr (first, found) ↦
      subst (λ (r : PlacementInput × Table ℕ PlacementInput). Step s (record s { started = r.1 }))
        (sym (start_known first found)) (same-Step s)
]
  where
    start_new :
        lookup p.order_id s.started ≡ none → start p s.started ≡ (p, insert p.order_id p s.started)
    start_new absent = ground arith

    start_known :
        (first : PlacementInput)
        → lookup p.order_id s.started ≡ some first
        → start p s.started ≡ (first, s.started)
    start_known first found = ground arith

pub start_found :
    (p : PlacementInput) (started : Table ℕ PlacementInput)
    → lookup p.order_id (start p started).1 ≡ some (start p started).0
start_found p started = elim (Option-cases (lookup p.order_id started)) [
  | inl absent ↦ ground (arith, absent, lookup-insert_self p.order_id p started)
  | inr (first, found) ↦ ground (arith, found)
]
