-- ===== src/Order/Stranded.antt =====
-- An authorization that outlives the deadline of services/order/order/workflows.py: Temporal stops
-- waiting for the attempt, but the attempt goes on.
use smart_food_ops.Prelude.{◌≡◌, true, nat_eq}
use smart_food_ops.Order.Saga.{Saga, Ending, ended_cancelled}
use smart_food_ops.Order.Holdings.{held}

-- Cancelled, with a hold on the card.
abbrev Strands : Ending × Saga → Type 0
Strands r = (r.0 ≡ ended_cancelled) × ((held r.1).hold ≡ true)
