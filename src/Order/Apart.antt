-- ===== src/Order/Apart.antt =====
-- What a placement of one intent leaves alone: the orders and the workflows of every other id, in
-- services/order/order/domain/service.py.
use smart_food_ops.Prelude.{
  ℕ, ◌≡◌, refl, ap, ◌∙◌, Bool, true, false, Option, none, some, nat_beq, nat_eq, arith,
  Option-cases, inl, inr, if◌then◌else◌,
}
use smart_food_ops.Table.{Table, lookup, lookup-insert}
use smart_food_ops.Order.Rows.{OrderStatus, Order, PlacementInput, World}
use smart_food_ops.Order.Activities.{create_order, placed_row}
use smart_food_ops.Order.Placement.{
  Placing, PlaceCall, Quoted, quoted, refused, peer_down, Reached, in_time, too_slow, closed, lost,
  unreachable, PlaceOutcome, replayed, hash_mismatch, acked, adopted, answered, start, saga_place,
  attach, placement_of, place_new, get_order, is_other_hash, place,
}
use smart_food_ops.Order.Started.{IsPlaced, start-Step, start_found, create_order-cases}

-- The row and the workflow of one id are as they were.
abbrev pub Leaves : ℕ → Placing → Placing → Type 0
Leaves other s s' =
    (lookup other s'.db.orders ≡ lookup other s.db.orders)
    × (lookup other s'.started ≡ lookup other s.started)

create_order_leaves :
    (p : PlacementInput) (other : ℕ) (w : World)
    → nat_beq p.order_id other ≡ false
    → lookup other (create_order p w).1.orders ≡ lookup other w.orders
create_order_leaves p other w apart = elim (create_order-cases p w) [
  | inl same ↦ ap (lookup other) same
  | inr (absent, added) ↦
      ap (lookup other) added
      ∙ ground (arith, apart, lookup-insert p.order_id other (placed_row p) w.orders)
]

start_leaves :
    (p : PlacementInput) (other : ℕ) (started : Table ℕ PlacementInput)
    → nat_beq p.order_id other ≡ false
    → lookup other (start p started).1 ≡ lookup other started
start_leaves p other started apart = elim (Option-cases (lookup p.order_id started)) [
  | inl absent ↦ ground (arith, absent, apart, lookup-insert p.order_id other p started)
  | inr (first, found) ↦ ground (arith, found)
]

acked-Leaves :
    (order_id other : ℕ) (s : Placing) (r : Option OrderStatus × World)
    (started : Table ℕ PlacementInput)
    → lookup other r.1.orders ≡ lookup other s.db.orders
    → lookup other started ≡ lookup other s.started
    → Leaves other s (acked order_id r started).1
acked-Leaves order_id other s (none, w) started rows workflows = (rows, workflows)
acked-Leaves order_id other s (some status, w) started rows workflows = (rows, workflows)

adopted-Leaves :
    (order_id other : ℕ) (row : Option Order) (s : Placing)
    → Leaves other s (adopted order_id row s).1
adopted-Leaves order_id other none s = (refl, refl)
adopted-Leaves order_id other (some row) s = (refl, refl)

-- The workflow that answers a start is one of the id that was asked for.
started_id :
    (p : PlacementInput) (s : Placing) → IsPlaced s → (start p s.started).0.order_id ≡ p.order_id
started_id p s h =
    ((start-Step p s).sound h).own_id p.order_id (start p s.started).0 (start_found p s.started)

saga_place-Leaves :
    (user_id : ℕ) (reached : Reached) (p : PlacementInput) (other : ℕ) (s : Placing)
    → IsPlaced s
    → nat_beq p.order_id other ≡ false
    → Leaves other s (saga_place user_id reached p s).1
saga_place-Leaves user_id in_time p other s h apart =
    let (first, started) = start p s.started in
    acked-Leaves p.order_id other s (create_order first s.db) started
      (create_order_leaves first other s.db
        (ap (λ id. nat_beq id other) (started_id p s h) ∙ apart))
      (start_leaves p other s.started apart)
saga_place-Leaves user_id too_slow p other s h apart = (refl, start_leaves p other s.started apart)
saga_place-Leaves user_id lost p other s h apart = (refl, start_leaves p other s.started apart)
saga_place-Leaves user_id closed p other s h apart =
    adopted-Leaves p.order_id other (get_order user_id p.order_id s.db) s
saga_place-Leaves user_id unreachable p other s h apart = (refl, refl)

attach-Leaves :
    (reached : Reached) (order_id other : ℕ) (first : Option PlacementInput) (s : Placing)
    → IsPlaced s
    → nat_beq order_id other ≡ false
    → lookup order_id s.started ≡ first
    → Leaves other s (attach reached order_id first s).1
attach-Leaves in_time order_id other (some first) s h apart mine =
    acked-Leaves order_id other s (create_order first s.db) s.started
      (create_order_leaves first other s.db
        (ap (λ id. nat_beq id other) (h.own_id order_id first mine) ∙ apart))
      refl
attach-Leaves in_time order_id other none s h apart mine = (refl, refl)
attach-Leaves too_slow order_id other (some first) s h apart mine = (refl, refl)
attach-Leaves too_slow order_id other none s h apart mine = (refl, refl)
attach-Leaves closed order_id other first s h apart mine = (refl, refl)
attach-Leaves lost order_id other first s h apart mine = (refl, refl)
attach-Leaves unreachable order_id other first s h apart mine = (refl, refl)

place_new-Leaves :
    (call : PlaceCall) (order_id other : ℕ) (quote : Quoted) (s : Placing)
    → IsPlaced s
    → nat_beq order_id other ≡ false
    → Leaves other s (place_new call order_id quote s).1
place_new-Leaves call order_id other (quoted cart) s h apart =
    saga_place-Leaves call.user_id call.on_place (placement_of call order_id cart) other s h apart
place_new-Leaves call order_id other refused s h apart =
    attach-Leaves call.on_attach order_id other (lookup order_id s.started) s h apart refl
place_new-Leaves call order_id other peer_down s h apart = (refl, refl)

either-Leaves :
    (other : ℕ) (s : Placing) (mismatch : Bool) (r r' : PlaceOutcome × Placing)
    → Leaves other s r.1
    → Leaves other s r'.1
    → Leaves other s (if mismatch then r else r').1
either-Leaves other s true r r' h h' = h
either-Leaves other s false r r' h h' = h'

answered-Leaves :
    (call : PlaceCall) (order_id other : ℕ) (row : Option Order) (s : Placing)
    → IsPlaced s
    → nat_beq order_id other ≡ false
    → Leaves other s (answered call order_id row s).1
answered-Leaves call order_id other none s h apart =
    place_new-Leaves call order_id other call.quote s h apart
answered-Leaves call order_id other (some row) s h apart =
    either-Leaves other s (is_other_hash call.request_hash row.request_hash) (hash_mismatch, s)
      (replayed order_id row.status, s) (refl, refl) (refl, refl)

pub place-Leaves :
    (order_id_for : ℕ → ℕ → ℕ) (call : PlaceCall) (other : ℕ) (s : Placing)
    → IsPlaced s
    → nat_beq (order_id_for call.user_id call.idem_key) other ≡ false
    → Leaves other s (place order_id_for call s).1
unfolding place
place-Leaves order_id_for call other s h apart =
    let order_id = order_id_for call.user_id call.idem_key in
    answered-Leaves call order_id other (get_order call.user_id order_id s.db) s h apart
