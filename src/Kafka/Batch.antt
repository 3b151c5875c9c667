-- ===== src/Kafka/Batch.antt =====
-- `consume_batches_once`, `_handle_batch` and `run_batches` of
-- libs/smartfood-kafka/smartfood_kafka/consumer.py.
use smart_food_ops.Prelude.{
  ℕ, zero, suc, ◌+◌, Bool, true, false, Option, none, some, List, [], ◌∷◌, ◌++◌, map, length, drop,
  take, if◌then◌else◌,
}
use smart_food_ops.Kafka.Rows.{
  Message, event, serde_error, decoder_down, handled, Peers, Config, World,
}
use smart_food_ops.Kafka.Consumer.{backoff_of, park, commit}

module _ {S Event : Type 0} (cfg : Config) (p : Peers S Event) where
  -- The attempts on one event of a batch that failed, after `earlier` ones and with `left` to go.
  unfoldable pub singles_after : ℕ → ℕ → Message → Event → World S → Bool × World S
  singles_after earlier zero message e w = (true, w)
  singles_after earlier (suc left) message e w =
      let (error, s) = p.handle_batch (e ∷ []) w.peers in
      let w' = record w { peers = s; calls = w.calls + 1 } in
      let again =
        singles_after (earlier + 1) left message e
          (record w' { slept = w.slept + backoff_of cfg.backoff earlier }) in
      elim error [
        | none ↦ (true, record w' { fates = w.fates ++ handled message ∷ [] })
        | some raised ↦ elim left [
          | zero ↦ park cfg p message raised (earlier + 1) w'
          | suc _ ↦ again
        ]
      ]

  unfoldable pub each_single : List (Message × Event) → World S → Bool × World S
  each_single [] w = (true, w)
  each_single ((message, e) ∷ batch) w =
      let (done, w') = singles_after 0 cfg.max_attempts message e w in
      let later = each_single batch w' in if done then later else (false, w')

  -- A batch that fails degrades to singles.
  unfoldable pub handle_batch : List (Message × Event) → World S → Bool × World S
  handle_batch batch w =
      let (error, s) = p.handle_batch (map (λ entry. entry.1) batch) w.peers in
      let w' = record w { peers = s; calls = w.calls + 1 } in
      elim error [
        | none ↦ (true, record w' { fates = w.fates ++ map (λ entry. handled entry.0) batch })
        | some raised ↦ each_single batch w'
      ]

  -- The batch of the messages that decode; bad bytes are parked, and `none` is a decoder that is down
  -- or a dead letter topic that refuses.
  unfoldable pub assemble : List Message → World S → Option (List (Message × Event)) × World S
  assemble [] w = (some [], w)
  assemble (message ∷ rest) w =
      let (decoded, s) = p.decode message.value w.peers in
      let w' = record w { peers = s } in
      let (batch, after_event) = assemble rest w' in
      elim decoded [
        | event e ↦
            (elim batch [ none ↦ none | some entries ↦ some ((message, e) ∷ entries) ], after_event)
        | serde_error error ↦
            let (sent, after_park) = park cfg p message error 0 w' in
            let later = assemble rest after_park in if sent then later else (none, after_park)
        | decoder_down ↦ (none, w')
      ]

  -- The batch handed to the handler, then the commit; an empty batch calls no handler.
  unfoldable pub handed : List Message → Option (List (Message × Event)) → World S → Bool × World S
  handed read none w = (false, w)
  handed read (some []) w = commit cfg p (length read) w
  handed read (some (first ∷ rest)) w =
      let (done, w') = handle_batch (first ∷ rest) w in
      let moved = commit cfg p (length read) w' in if done then moved else (false, w')

  -- One poll's messages.
  unfoldable pub consume_batch : List Message → World S → Bool × World S
  consume_batch read w = let (batch, w') = assemble read w in handed read batch w'

  -- One session: polls of so many messages each, until an exception; a poll of none is idle.
  unfoldable pub consume_batches_once : List Message → List ℕ → World S → Bool × World S
  consume_batches_once partition [] w = (true, w)
  consume_batches_once partition (polled ∷ polls) w =
      let (done, w') = consume_batch (take polled (drop w.committed partition)) w in
      let later = consume_batches_once partition polls w' in if done then later else (false, w')

  -- `run_batches`: sessions, each from the committed offset.
  unfoldable pub run_batches : List Message → List (List ℕ) → World S → World S
  run_batches partition [] w = w
  run_batches partition (polls ∷ sessions) w =
      run_batches partition sessions (consume_batches_once partition polls w).1
