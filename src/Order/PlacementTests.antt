-- ===== src/Order/PlacementTests.antt =====
-- User 1 places with key 6, retries while the menu has drifted, and reuses the key.
use smart_food_ops.Prelude.{
  ℕ, ◌+◌, ◌*◌, ◌≡◌, refl, none, some, List, [], ◌∷◌, nat_beq_iff, nat_eq, arith,
}
use smart_food_ops.Table.{lookup, insert}
use smart_food_ops.Order.Rows.{PlacementInput, placed}
use smart_food_ops.Order.Activities.{placed_row, create_order}
use smart_food_ops.Order.Placement.{
  Placing, PlaceCall, Cart, quoted, refused, in_time, too_slow, unreachable, place, placed_order,
  replayed, placement_pending, placement_of,
}
use smart_food_ops.Order.Placed.{Event, places, creates, serve, one_order, place_again}
use smart_food_ops.Order.Started.{IsPlaced}

abbrev id_for : ℕ → ℕ → ℕ
id_for user_id idem_key = 100 * user_id + idem_key

abbrev cart : Cart
cart = record {
  restaurant_id = 2;
  restaurant_name = 20;
  brand_id = none;
  pricing_snapshot = 1000;
  address_snapshot = 30;
  lines = [];
}

abbrev call : PlaceCall
call = record {
  user_id = 1;
  idem_key = 6;
  request_hash = 99;
  quote = quoted cart;
  on_place = too_slow;
  on_attach = in_time;
  now = 100;
}

abbrev nothing : Placing
nothing = record {
  db = record { orders = []; order_items = []; cancellations = []; outbox = []; published = [] };
  started = [];
}

abbrev first : PlacementInput
first = placement_of call 106 cart

abbrev pending : Placing
pending = record nothing { started = (106, first) ∷ [] }

-- The refusal of the drifted menu loses to the workflow that is making the order.
refusal_loses :
    let (answer, s) = place id_for call nothing in
    let (again, s') = place id_for (record call { quote = refused; now = 105 }) s in
    (answer ≡ placement_pending)
    × (s ≡ pending)
    × (again ≡ placed_order 106 placed)
    × (lookup 106 s'.db.orders ≡ some (placed_row first))
unfolding place lookup insert create_order
refusal_loses = (refl, refl, refl, refl)

pending-IsPlaced : IsPlaced pending
unfolding lookup
pending-IsPlaced = record {
  own_id = λ id p found. ground (arith, nat_beq_iff 106 id);
  rows = λ id row found. cc;
}

abbrev retries : List Event
retries =
    places
      (record call { quote = quoted (record cart { pricing_snapshot = 2000 }); on_place = in_time })
    ∷ creates 106
    ∷ []

pending_found : lookup 106 pending.started ≡ some first
unfolding lookup
pending_found = refl

retried_row : lookup 106 (serve id_for retries pending).db.orders ≡ some (placed_row first)
unfolding serve place lookup insert create_order
retried_row = refl

-- A retry with a dearer cart, after the row of the first is there.
abbrev dearer : PlaceCall
dearer = record call { quote = quoted (record cart { pricing_snapshot = 3000 }) }

row_after :
    lookup 106 (place id_for dearer (serve id_for retries pending)).1.db.orders
    ≡ some (placed_row first)
unfolding serve place lookup insert create_order
row_after = refl

one_order_example :
    let before = serve id_for retries pending in
    let after = (place id_for dearer before).1 in
    (lookup 106 after.started ≡ some first)
    × (placed_row first ≡ placed_row first)
    × (lookup 107 after.db.orders ≡ lookup 107 before.db.orders)
    × (lookup 107 after.started ≡ lookup 107 before.started)
one_order_example =
    one_order id_for retries dearer pending first (placed_row first) 107 pending-IsPlaced
      pending_found refl row_after

place_again_example :
    let s' = serve id_for retries (serve id_for retries pending) in
    place id_for (record call { quote = refused; on_attach = unreachable }) s'
    ≡ (replayed 106 placed, s')
place_again_example =
    place_again id_for retries (serve id_for retries pending)
      (record call { quote = refused; on_attach = unreachable }) (placed_row first) 99 retried_row
      refl refl
