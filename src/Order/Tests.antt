-- ===== src/Order/Tests.antt =====
-- The order's theorems at concrete orders.
use smart_food_ops.Prelude.{ℕ, ◌≡◌, refl, true, false, none, some, List, [], ◌∷◌, ◌++◌, nat_eq}
use smart_food_ops.Table.{lookup, insert}
use smart_food_ops.Order.Rows.{
  OrderStatus, validated, ready, picked_up, cancelling, cancelled, customer_cancelled, Milestones,
  Order, OrderItem, World, PlacementInput,
}
use smart_food_ops.Order.Transitions.{transition, illegal_transition, begin_cancel_from}
use smart_food_ops.Order.Activities.{
  create_order, placed_row, pick_up_move, try_begin_cancel, validate_and_reserve, authorize_payment,
  reserve_ok, auth_ok,
}
use smart_food_ops.Order.Kitchen.{accept, reject, set_ready, set_preparing}
use smart_food_ops.Order.Sound.{IsSound}
use smart_food_ops.Order.History.{
  Call, create, reserve_stock, clear_payment, move_order, confirm_order, mark_accepted,
  mark_picked_up, mark_delivered, prepare_food, finish_food, cancel_in_kitchen, finish_cancel,
  serve, serve_one, fresh,
}
use smart_food_ops.Order.Life.{history-IsSound}
use smart_food_ops.Order.Placement.{request_cancel, not_cancellable, signal_gone}
use smart_food_ops.Order.Answers.{bears_out, request_cancel_stands}
use smart_food_ops.Order.Races.{customer_wins}
use smart_food_ops.Order.Saga.{
  Script, in_time, out_of_time, committed, in_flight, never, failed_illegal, ended_cancelled,
  ended_settled,
}
use smart_food_ops.Order.Workflow.{run}
use smart_food_ops.Order.Holdings.{agrees, held}
use smart_food_ops.Order.Run.{run-agrees}
use smart_food_ops.Order.Ends.{declined_run_cancels}
use smart_food_ops.Order.Deadline.{deadline_strands_stock}

abbrev soup : OrderItem
soup = record {
  menu_item_id = 5;
  name_snapshot = 50;
  unit_price_cents = 400;
  qty = 2;
  options_snapshot = 0;
  line_total_cents = 800;
}

abbrev cart : PlacementInput
cart = record {
  order_id = 7;
  user_id = 1;
  restaurant_id = 2;
  brand_id = none;
  restaurant_name = 20;
  request_hash = 99;
  pricing_snapshot = 1000;
  address_snapshot = 30;
  lines = soup ∷ [];
  placed_at = 100;
}

abbrev to_cleared : List (ℕ × Call)
to_cleared =
    (100, create cart) ∷ (101, reserve_stock reserve_ok 7) ∷ (102, clear_payment auth_ok 7) ∷ []

abbrev to_ready : List (ℕ × Call)
to_ready =
    to_cleared
    ++ (103, move_order confirm_order 7)
      ∷ (104, move_order mark_accepted 7)
      ∷ (105, prepare_food 2 7)
      ∷ (106, finish_food 2 7)
      ∷ []

abbrev to_cancelled : List (ℕ × Call)
to_cancelled =
    to_ready
    ++ (107, cancel_in_kitchen customer_cancelled 7)
      ∷ (108, move_order (finish_cancel customer_cancelled) 7)
      ∷ []

abbrev cart_row : OrderStatus → ℕ → Milestones → Order
cart_row status updated_at milestones = record (placed_row cart) {
  status = status;
  updated_at = updated_at;
  milestones = milestones;
}

abbrev ready_stamps : Milestones
ready_stamps = record {
  payment_cleared_at = some 102;
  confirmed_at = some 103;
  accepted_at = some 104;
  preparing_at = some 105;
  ready_at = some 106;
  picked_up_at = none;
}

history-IsSound_example : IsSound (serve to_cancelled fresh)
history-IsSound_example = history-IsSound to_cancelled

abbrev after : List (ℕ × Call) → World
after calls = serve calls fresh

ready_found : lookup 7 (after to_ready).orders ≡ some (cart_row ready 106 ready_stamps)
unfolding serve fresh lookup serve_one create_order validate_and_reserve authorize_payment
    transition insert set_ready set_preparing try_begin_cancel begin_cancel_from
ready_found = refl

cancelled_found : lookup 7 (after to_cancelled).orders ≡ some (cart_row cancelled 108 ready_stamps)
unfolding serve fresh lookup serve_one create_order validate_and_reserve authorize_payment
    transition insert set_ready set_preparing try_begin_cancel begin_cancel_from
cancelled_found = refl

-- The courier has picked order 7 up between the read of its row and the signal.
abbrev picked_meanwhile : List (ℕ × Call)
picked_meanwhile = (107, move_order mark_picked_up 7) ∷ []

abbrev delivered_since : List (ℕ × Call)
delivered_since = (108, move_order mark_delivered 7) ∷ []

cancel_too_late :
    request_cancel 1 7 signal_gone (after to_ready) (serve picked_meanwhile (after to_ready))
    ≡ (not_cancellable picked_up, false)
unfolding request_cancel serve fresh lookup serve_one create_order validate_and_reserve
    authorize_payment transition insert set_ready set_preparing try_begin_cancel begin_cancel_from
cancel_too_late = refl

request_cancel_stands_example :
    bears_out 109 7 customer_cancelled
      (request_cancel 1 7 signal_gone (after to_ready) (serve picked_meanwhile (after to_ready))).0
      (serve delivered_since (serve picked_meanwhile (after to_ready)))
    ≡ true
request_cancel_stands_example =
    request_cancel_stands picked_meanwhile delivered_since signal_gone 109 1 7 customer_cancelled
      (after to_ready) (history-IsSound to_ready)

customer_wins_example :
    ((try_begin_cancel 107 customer_cancelled 7 (after to_ready)).0 ≡ true)
    × (transition 108 7 pick_up_move (try_begin_cancel 107 customer_cancelled 7 (after to_ready)).1
        ≡ (
          illegal_transition (some cancelling),
          (try_begin_cancel 107 customer_cancelled 7 (after to_ready)).1,
        ))
customer_wins_example =
    customer_wins 107 108 7 customer_cancelled (after to_ready) (cart_row ready 106 ready_stamps)
      ready_found refl

abbrev smooth : Script
smooth = record {
  now = 103;
  reserve = in_time reserve_ok;
  authorize = in_time auth_ok;
  confirm = in_time true;
  fork = record { timed_out = false; decision = some accept; cancel_requested = false };
  voids = true;
  in_kitchen = (105, prepare_food 2 7) ∷ (106, finish_food 2 7) ∷ [];
  rider_found = true;
  cancel_seen = never;
  on_road = [];
  capturable = true;
}

-- The restaurant rejects, and the payment service refuses the void.
abbrev void_refused : Script
void_refused = record smooth {
  fork = record { timed_out = false; decision = some reject; cancel_requested = false };
  voids = false;
}

void_refused_holds :
    let (ending, s) = run void_refused cart fresh in
    (ending ≡ ended_cancelled) × ((held s).hold ≡ true)
unfolding run fresh lookup insert held
void_refused_holds = (refl, refl)

run-agrees_example : agrees void_refused 7 (run void_refused cart fresh) ≡ true
run-agrees_example = run-agrees void_refused cart fresh

-- The authorization is in flight when the deadline strikes.
abbrev outlived : Script
outlived = record smooth { authorize = out_of_time in_flight }

-- A run whose reservation committed when the deadline struck.
abbrev late : Script
late = record smooth { reserve = out_of_time committed }

deadline_strands_stock_example :
    ((run late cart fresh).0 ≡ failed_illegal (some validated))
    × ((held (run late cart fresh).1).stock ≡ true)
unfolding fresh lookup
deadline_strands_stock_example = deadline_strands_stock late cart fresh refl refl refl

settles_when_smooth : (run smooth cart fresh).0 ≡ ended_settled
unfolding run fresh lookup insert serve set_ready set_preparing
settles_when_smooth = refl

abbrev refused : Script
refused = record smooth {
  fork = record { timed_out = false; decision = some reject; cancel_requested = false };
}

declined_run_cancels_example : (run refused cart fresh).0 ≡ ended_cancelled
unfolding fresh lookup
declined_run_cancels_example =
    declined_run_cancels refused cart fresh reserve_ok auth_ok true refl refl refl refl refl refl
