-- ===== src/Dispatch/History.antt =====
-- Whole histories of calls of services/dispatch/dispatch/domain/service.py, and of their writes.
use smart_food_ops.Prelude.{ℕ, ◌≡◌, ◌≤◌, some, List, [], ◌∷◌, nat_eq}
use smart_food_ops.Table.{lookup}
use smart_food_ops.Table.Rows.{AllRows-lookup}
use smart_food_ops.Dispatch.Rows.{Rider, World}
use smart_food_ops.Dispatch.Service.{Env}
use smart_food_ops.Dispatch.Writes.{Write, run, no_tables}
use smart_food_ops.Dispatch.Capacity.{Fits, load_of, run-Fits}
use smart_food_ops.Dispatch.Calls.{Call, serve}

-- Each call at its own time, with the peers that then answer.
unfoldable pub serve_all : ℕ → List (Env × Call) → World → World
serve_all cap [] w = w
serve_all cap ((env, call) ∷ calls) w =
    serve_all cap calls (serve (record env { cap = cap }) call w)

-- Whatever the interleaving of the writes of any calls from empty tables: the orders that a rider
-- works, and one more while an offer's lock is held, are at most the cap.
pub rider_load_bound :
    (cap : ℕ) (ops : List Write) (rider_id : ℕ) (row : Rider)
    → lookup rider_id (run cap ops no_tables).riders ≡ some row
    → load_of row ≤ cap
rider_load_bound cap ops rider_id row found =
    AllRows-lookup (Fits cap) rider_id row (run cap ops no_tables).riders
      (run-Fits cap ops no_tables tt) found
