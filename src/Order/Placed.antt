-- ===== src/Order/Placed.antt =====
-- One intent, one order: placements of services/order/order/domain/service.py under any retries.
use mathlib.Core.Option.{some-injective}
use smart_food_ops.Prelude.{
  ℕ, ◌≡◌, refl, sym, ap, ◌∙◌, Bool, true, false, Option, none, some, List, [], ◌∷◌, nat_beq,
  nat_beq_iff, nat_eq, arith, if◌then◌else◌,
}
use smart_food_ops.Table.{Table, lookup}
use smart_food_ops.Order.Rows.{OrderStatus, Order, PlacementInput, World}
use smart_food_ops.Order.Activities.{create_order, placed_row}
use smart_food_ops.Order.Placement.{
  Placing, PlaceCall, Quoted, quoted, refused, peer_down, Reached, in_time, too_slow, closed, lost,
  unreachable, PlaceOutcome, replayed, hash_mismatch, acked, adopted, answered, start, saga_place,
  attach, placement_of, place_new, get_order, is_other_hash, place,
}
use smart_food_ops.Order.Apart.{place-Leaves}
use smart_food_ops.Order.Started.{
  IsPlaced, Step, same-Step, next-Step, create-Step, start-Step, start_found,
}

-- A call of `place`, or the workflow of an id that comes to create its row.
pub data Event : Type 0 where
  places : PlaceCall → Event
  creates : ℕ → Event

abbrev pub create_started : ℕ → Option PlacementInput → Placing → Placing
create_started order_id none s = s
create_started order_id (some first) s = record s { db = (create_order first s.db).1 }

unfoldable pub serve : (ℕ → ℕ → ℕ) → List Event → Placing → Placing
serve order_id_for [] s = s
serve order_id_for (places call ∷ events) s =
    serve order_id_for events (place order_id_for call s).1
serve order_id_for (creates order_id ∷ events) s =
    serve order_id_for events (create_started order_id (lookup order_id s.started) s)

acked-Step :
    (order_id : ℕ) (s : Placing) (r : Option OrderStatus × World) (started : Table ℕ PlacementInput)
    → Step s (record { db = r.1; started = started })
    → Step s (acked order_id r started).1
acked-Step order_id s (none, w) started step = step
acked-Step order_id s (some status, w) started step = step

adopted-Step : (order_id : ℕ) (row : Option Order) (s : Placing) → Step s (adopted order_id row s).1
adopted-Step order_id none s = same-Step s
adopted-Step order_id (some row) s = same-Step s

saga_place-Step :
    (user_id : ℕ) (reached : Reached) (p : PlacementInput) (s : Placing)
    → Step s (saga_place user_id reached p s).1
saga_place-Step user_id in_time p s =
    let (first, started) = start p s.started in
    let s' = record s { started = started } in
    acked-Step p.order_id s (create_order first s.db) started (
      next-Step s s' (record s' { db = (create_order first s.db).1 }) (start-Step p s)
        (create-Step first p.order_id s' (start_found p s.started)))
saga_place-Step user_id too_slow p s = start-Step p s
saga_place-Step user_id closed p s = adopted-Step p.order_id (get_order user_id p.order_id s.db) s
saga_place-Step user_id lost p s = start-Step p s
saga_place-Step user_id unreachable p s = same-Step s

attach-Step :
    (reached : Reached) (order_id : ℕ) (first : Option PlacementInput) (s : Placing)
    → lookup order_id s.started ≡ first
    → Step s (attach reached order_id first s).1
attach-Step in_time order_id (some first) s mine =
    acked-Step order_id s (create_order first s.db) s.started (create-Step first order_id s mine)
attach-Step in_time order_id none s mine = same-Step s
attach-Step too_slow order_id (some first) s mine = same-Step s
attach-Step too_slow order_id none s mine = same-Step s
attach-Step lost order_id first s mine = same-Step s
attach-Step closed order_id first s mine = same-Step s
attach-Step unreachable order_id first s mine = same-Step s

place_new-Step :
    (call : PlaceCall) (order_id : ℕ) (quote : Quoted) (s : Placing)
    → Step s (place_new call order_id quote s).1
place_new-Step call order_id (quoted cart) s =
    saga_place-Step call.user_id call.on_place (placement_of call order_id cart) s
place_new-Step call order_id refused s =
    attach-Step call.on_attach order_id (lookup order_id s.started) s refl
place_new-Step call order_id peer_down s = same-Step s

either-Step :
    (s : Placing) (other : Bool) (r r' : PlaceOutcome × Placing)
    → Step s r.1
    → Step s r'.1
    → Step s (if other then r else r').1
either-Step s true r r' h h' = h
either-Step s false r r' h h' = h'

answered-Step :
    (call : PlaceCall) (order_id : ℕ) (row : Option Order) (s : Placing)
    → Step s (answered call order_id row s).1
answered-Step call order_id none s = place_new-Step call order_id call.quote s
answered-Step call order_id (some row) s =
    either-Step s (is_other_hash call.request_hash row.request_hash) (hash_mismatch, s)
      (replayed order_id row.status, s) (same-Step s) (same-Step s)

create_started-Step :
    (order_id : ℕ) (first : Option PlacementInput) (s : Placing)
    → lookup order_id s.started ≡ first
    → Step s (create_started order_id first s)
create_started-Step order_id none s mine = same-Step s
create_started-Step order_id (some first) s mine = create-Step first order_id s mine

place-Step :
    (order_id_for : ℕ → ℕ → ℕ) (call : PlaceCall) (s : Placing)
    → Step s (place order_id_for call s).1
unfolding place
place-Step order_id_for call s =
    let order_id = order_id_for call.user_id call.idem_key in
    answered-Step call order_id (get_order call.user_id order_id s.db) s

serve-Step :
    (order_id_for : ℕ → ℕ → ℕ) (events : List Event) (s : Placing)
    → Step s (serve order_id_for events s)
unfolding serve place
serve-Step order_id_for [] s = same-Step s
serve-Step order_id_for (places call ∷ events) s =
    let order_id = order_id_for call.user_id call.idem_key in
    let row = get_order call.user_id order_id s.db in
    let s' = (answered call order_id row s).1 in
    next-Step s s' (serve order_id_for events s') (answered-Step call order_id row s)
      (serve-Step order_id_for events s')
serve-Step order_id_for (creates order_id ∷ events) s =
    let s' = create_started order_id (lookup order_id s.started) s in
    next-Step s s' (serve order_id_for events s')
      (create_started-Step order_id (lookup order_id s.started) s refl)
      (serve-Step order_id_for events s')

-- From a state in which each workflow has the id of its placement and each row is the one that its
-- workflow placed, whatever is placed and retried, with any carts, prices and failures, and whenever
-- workflows create their rows: a further place of an intent for whose id a workflow was started, with any cart and
-- however it fares, leaves that workflow its first placement; the row of the id, once there, is the
-- one of that placement; and for every other id there is the same row and the same workflow after
-- the place as before it.
pub one_order :
    (order_id_for : ℕ → ℕ → ℕ) (events : List Event) (call : PlaceCall) (s : Placing)
    (p : PlacementInput) (row : Order) (other : ℕ)
    → IsPlaced s
    → lookup (order_id_for call.user_id call.idem_key) s.started ≡ some p
    → nat_beq (order_id_for call.user_id call.idem_key) other ≡ false
    → let before = serve order_id_for events s in
      let after = (place order_id_for call before).1 in
      lookup (order_id_for call.user_id call.idem_key) after.db.orders ≡ some row
      → (lookup (order_id_for call.user_id call.idem_key) after.started ≡ some p)
        × (row ≡ placed_row p)
        × (lookup other after.db.orders ≡ lookup other before.db.orders)
        × (lookup other after.started ≡ lookup other before.started)
one_order order_id_for events call s p row other h began apart found =
    let before = serve order_id_for events s in
    let after = (place order_id_for call before).1 in
    let id = order_id_for call.user_id call.idem_key in
    let first = serve-Step order_id_for events s in
    let again = place-Step order_id_for call before in
    let kept = again.started id p (first.started id p began) in
    let (q, began', eq) = (again.sound (first.sound h)).rows id row found in
    let (rows, workflows) = place-Leaves order_id_for call other before (first.sound h) apart in
    (kept, eq ∙ ap placed_row (some-injective q p (sym began' ∙ kept)), rows, workflows)

-- Once the derived id of a user's key has a row, a later place of that user and key changes nothing,
-- whatever was placed between and whatever the cart, the prices and Temporal are by then: it answers
-- with the order when the body is the same, and with the mismatch when it is another.
pub place_again :
    (order_id_for : ℕ → ℕ → ℕ) (events : List Event) (s : Placing) (call : PlaceCall) (row : Order)
    (request_hash : ℕ)
    → lookup (order_id_for call.user_id call.idem_key) s.db.orders ≡ some row
    → row.user_id ≡ call.user_id
    → row.request_hash ≡ some request_hash
    → let s' = serve order_id_for events s in
      place order_id_for call s' ≡ (
        if nat_beq request_hash call.request_hash
            then replayed (order_id_for call.user_id call.idem_key) row.status
            else hash_mismatch,
        s',
      )
unfolding place
place_again order_id_for events s call row request_hash found own hashed =
    let s' = serve order_id_for events s in
    let still =
      (serve-Step order_id_for events s).stays (order_id_for call.user_id call.idem_key) row
        found in
    ground (arith, still, own, hashed, nat_beq_iff row.user_id call.user_id)
