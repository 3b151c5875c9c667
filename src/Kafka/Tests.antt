-- ===== src/Kafka/Tests.antt =====
-- A partition of four messages: bad bytes, one that the handler always refuses, and two that pass.
use smart_food_ops.Prelude.{
  ℕ, ◌+◌, ◌≤◌, ◌≡◌, refl, Bool, true, none, some, List, [], ◌∷◌, any, nat_beq, arith, if◌then◌else◌,
}
use smart_food_ops.Kafka.Rows.{Message, event, serde_error, Peers, Config, World, handled, parked}
use smart_food_ops.Kafka.Consumer.{
  backoff_of, park, attempts_after, process, commit, consume_once, run,
}
use smart_food_ops.Kafka.Delivered.{IsCovered, run-IsCovered}
use smart_food_ops.Kafka.Attempts.{process_bounds}
use smart_food_ops.Kafka.Progress.{is_up, consume_once_progress}
use smart_food_ops.Kafka.Batch.{run_batches}
use smart_food_ops.Kafka.Batches.{run_batches-IsCovered}

abbrev cfg : Config
cfg = record { max_attempts = 3; backoff = 500 }

abbrev refuses : ℕ → Bool
refuses e = nat_beq e 13

abbrev peers : Peers ℕ ℕ
peers = record {
  decode = λ value s. (if nat_beq value 0 then serde_error 1 else event value, s);
  handle = λ e s. (if refuses e then some 9 else none, s + 1);
  handle_batch = λ es s. (if any refuses es then some 9 else none, s + 1);
  send_and_wait = λ r s. (true, s);
  commit = λ s. (true, s);
  clock = λ s. s;
}

abbrev message : ℕ → ℕ → Message
message offset value = record {
  topic = 1;
  partition = 0;
  offset = offset;
  key = none;
  value = value;
  headers = [];
}

abbrev partition : List Message
partition = message 0 7 ∷ message 1 0 ∷ message 2 13 ∷ message 3 8 ∷ []

abbrev start : World ℕ
start = record { peers = 0; fates = []; committed = 0; calls = 0; slept = 0 }

poison_is_parked :
    let w = run cfg peers partition (2 ∷ 0 ∷ 9 ∷ []) start in
    (w.fates
      ≡ handled (message 0 7)
        ∷ parked (message 1 0) 0 1
        ∷ parked (message 2 13) 3 9
        ∷ handled (message 3 8)
        ∷ [])
    × (w.committed ≡ 4)
    × (w.calls ≡ 5)
    × (w.slept ≡ 1500)
unfolding run consume_once process attempts_after park commit backoff_of
poison_is_parked = (refl, refl, refl, refl)

start-IsCovered : IsCovered partition start
unfolding IsCovered
start-IsCovered = tt

process_bounds_example :
    let w = (process cfg peers (message 2 13) start).1 in
    (w.calls ≤ 3) × (w.slept + 500 ≤ 0 + backoff_of 500 2)
process_bounds_example = process_bounds cfg peers (message 2 13) start (omega arith)

run-IsCovered_example : IsCovered partition (run cfg peers partition (2 ∷ 9 ∷ []) start)
run-IsCovered_example =
    run-IsCovered cfg peers (omega arith) partition (2 ∷ 9 ∷ []) start start-IsCovered

run_batches-IsCovered_example :
    IsCovered partition (run_batches cfg peers partition ((3 ∷ 1 ∷ []) ∷ []) start)
run_batches-IsCovered_example =
    run_batches-IsCovered cfg peers (omega arith) partition ((3 ∷ 1 ∷ []) ∷ []) start
      start-IsCovered

decodes : (value s : ℕ) → is_up (peers.decode value s).0 ≡ true
decodes value s = ground arith

consume_once_progress_example :
    let (ended, w) = consume_once cfg peers partition start in (ended ≡ true) × (w.committed ≡ 4)
consume_once_progress_example =
    consume_once_progress cfg peers (λ r s. refl) decodes (λ s. refl) (omega arith) partition start
