-- ===== src/Kafka/Consumer.antt =====
-- `_process`, `_park`, `consume_once` and `run` of
-- libs/smartfood-kafka/smartfood_kafka/consumer.py. False is an exception that leaves the call.
use smart_food_ops.Prelude.{
  ℕ, zero, suc, ◌+◌, ◌*◌, Bool, true, false, none, some, List, [], ◌∷◌, ◌++◌, drop, take,
  if◌then◌else◌,
}
use smart_food_ops.Kafka.Rows.{
  Message, Decoded, event, serde_error, decoder_down, handled, parked, dlq_record, Peers, Config,
  World,
}

-- `backoff_seconds * 2 ** n`
unfoldable pub backoff_of : ℕ → ℕ → ℕ
backoff_of backoff zero = backoff
backoff_of backoff (suc n) = 2 * backoff_of backoff n

module _ {S Event : Type 0} (cfg : Config) (p : Peers S Event) where
  unfoldable pub park : Message → ℕ → ℕ → World S → Bool × World S
  park message error attempts w =
      let (sent, s) =
        p.send_and_wait (dlq_record message error attempts (p.clock w.peers)) w.peers in
      if sent
      then (true, record w { peers = s; fates = w.fates ++ parked message attempts error ∷ [] })
      else (false, record w { peers = s })

  -- The attempts after `earlier` ones, with `left` to go; with none left the loop is over.
  unfoldable pub attempts_after : ℕ → ℕ → Message → Event → World S → Bool × World S
  attempts_after earlier zero message e w = (true, w)
  attempts_after earlier (suc left) message e w =
      let (error, s) = p.handle e w.peers in
      let w' = record w { peers = s; calls = w.calls + 1 } in
      let again =
        attempts_after (earlier + 1) left message e
          (record w' { slept = w.slept + backoff_of cfg.backoff earlier }) in
      elim error [
        | none ↦ (true, record w' { fates = w.fates ++ handled message ∷ [] })
        | some raised ↦ elim left [ zero ↦ park message raised (earlier + 1) w' | suc _ ↦ again ]
      ]

  -- Bad bytes are parked at once; a decoder that is down raises.
  abbrev pub decided : Decoded Event → Message → World S → Bool × World S
  decided (event e) message w = attempts_after 0 cfg.max_attempts message e w
  decided (serde_error error) message w = park message error 0 w
  decided decoder_down message w = (false, w)

  unfoldable pub process : Message → World S → Bool × World S
  process message w =
      let (decoded, s) = p.decode message.value w.peers in
      decided decoded message (record w { peers = s })

  -- The commit moves the group's offset past the messages read.
  unfoldable pub commit : ℕ → World S → Bool × World S
  commit read w =
      let (done, s) = p.commit w.peers in
      if done
      then (true, record w { peers = s; committed = w.committed + read })
      else (false, record w { peers = s })

  -- One session, over the messages that the client's iterator gives.
  unfoldable pub consume_once : List Message → World S → Bool × World S
  consume_once [] w = (true, w)
  consume_once (message ∷ rest) w =
      let (processed, w1) = process message w in
      let (moved, w2) = commit 1 w1 in
      let later = consume_once rest w2 in
      if processed then if moved then later else (false, w2) else (false, w1)

  -- `run`: sessions, each from the committed offset of the partition and over as many messages as
  -- its client gives before it ends or cannot start.
  unfoldable pub run : List Message → List ℕ → World S → World S
  run partition [] w = w
  run partition (given ∷ sessions) w =
      run partition sessions (consume_once (take given (drop w.committed partition)) w).1
