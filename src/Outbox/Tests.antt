-- ===== src/Outbox/Tests.antt =====
-- Two staged events, and a broker that refuses the second send of the first drain.
use smart_food_ops.Prelude.{
  ℕ, ◌+◌, ◌≤◌, ◌≡◌, refl, true, false, none, some, List, [], ◌∷◌, map, nat_beq, not, arith,
}
use smart_food_ops.Outbox.Rows.{Row, record_of, World, has_id}
use smart_food_ops.Outbox.Poller.{
  Config, Pass, Event, stages, drains, stage_event, insert_row, order_rows, pending, mark, send_all,
  publish, drain_once, run,
}
use smart_food_ops.Outbox.Sound.{IsSound}
use smart_food_ops.Outbox.History.{run-IsSound}
use smart_food_ops.Outbox.Drained.{waiting, IsHealthy, run_drains}

abbrev row : ℕ → ℕ → Row
row id occurred_at = record {
  id = id;
  aggregate_type = 1;
  aggregate_id = 7;
  event_type = 2;
  payload = 3;
  occurred_at = occurred_at;
  published_at = none;
  traceparent = none;
}

-- The second send of this broker is refused.
abbrev cfg : Config ℕ
cfg = record { own_cell = 1; batch_size = 10; send = λ s b. (not (nat_beq b 1), b + 1) }

abbrev pass : Pass
pass = record { now = 50; locked = λ id. false; commits = true }

abbrev start : World ℕ
start = record { rows = []; sent = []; broker = 0 }

abbrev events : List Event
events = stages (row 8 20) ∷ stages (row 9 10) ∷ drains pass ∷ drains pass ∷ []

-- The older event goes first; the failed drain marks nothing, and the next sends both.
resends_the_batch :
    let w = run cfg events start in
    (w.sent ≡ record_of 1 (row 9 10) ∷ record_of 1 (row 9 10) ∷ record_of 1 (row 8 20) ∷ [])
    × (w.rows
        ≡ record (row 8 20) { published_at = some 50 }
          ∷ record (row 9 10) { published_at = some 50 }
          ∷ [])
unfolding run stage_event has_id drain_once publish pending order_rows insert_row send_all mark
resends_the_batch = (refl, refl)

start-IsSound : IsSound 1 start
start-IsSound = record {
  keyed = λ r r' m m' same. elim m [ ];
  confirmed = λ r m published. elim m [ ];
}

run-IsSound_example : IsSound 1 (run cfg events start)
run-IsSound_example = run-IsSound cfg events start start-IsSound

abbrev steady : Config ℕ
steady = record { own_cell = 1; batch_size = 1; send = λ s b. (true, b) }

abbrev backlog : World ℕ
backlog = record { rows = row 8 20 ∷ row 9 10 ∷ []; sent = []; broker = 0 }

pass-IsHealthy : IsHealthy pass
pass-IsHealthy = record { free = λ id. refl; commits = refl }

backlog_of_two : waiting backlog.rows ≤ 2
unfolding waiting
backlog_of_two = omega arith

run_drains_example : waiting (run steady (map drains (pass ∷ pass ∷ [])) backlog).rows ≡ 0
run_drains_example =
    run_drains steady (λ s b. refl) (pass ∷ pass ∷ []) backlog (omega arith)
      (pass-IsHealthy, (pass-IsHealthy, tt)) backlog_of_two
