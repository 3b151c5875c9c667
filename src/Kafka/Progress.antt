-- ===== src/Kafka/Progress.antt =====
-- No message blocks its partition: a session of libs/smartfood-kafka/smartfood_kafka/consumer.py whose
-- dead letter topic works goes through, whatever the handler does.
use smart_food_ops.Prelude.{
  ℕ, zero, suc, ◌+◌, ◌≤◌, ◌≡◌, refl, ap, ◌∙◌, Bool, true, false, List, [], ◌∷◌, length, arith,
  if◌then◌else◌, Option-cases, inl, inr,
}
use smart_food_ops.Kafka.Rows.{
  Message, Decoded, event, serde_error, decoder_down, DlqRecord, dlq_record, Peers, Config, World,
}
use smart_food_ops.Kafka.Consumer.{
  backoff_of, park, attempts_after, decided, process, commit, consume_once,
}
use smart_food_ops.Kafka.Fates.{process-Accounts}
use smart_food_ops.Kafka.Session.{session_next, commit-committed}

abbrev pub is_up : {Event : Type 0} → Decoded Event → Bool
is_up (event e) = true
is_up (serde_error error) = true
is_up decoder_down = false

module _ {S Event : Type 0} (cfg : Config) (p : Peers S Event)
    (dlq_up : (r : DlqRecord) (s : S) → (p.send_and_wait r s).0 ≡ true) where
  park_done :
      (message : Message) (error attempts : ℕ) (w : World S)
      → (park cfg p message error attempts w).0 ≡ true
  unfolding park
  park_done message error attempts w =
      let sent = dlq_up (dlq_record message error attempts (p.clock w.peers)) w.peers in
      ground (arith, sent)

  attempts_after_done :
      (earlier left : ℕ) (message : Message) (e : Event) (w : World S)
      → (attempts_after cfg p earlier left message e w).0 ≡ true
  unfolding attempts_after
  attempts_after_done earlier zero message e w = refl
  attempts_after_done earlier (suc zero) message e w =
      let (error, s) = p.handle e w.peers in
      let w' = record w { peers = s; calls = w.calls + 1 } in
      elim (Option-cases error) [
        | inl returned ↦ ground (arith, returned)
        | inr (raised, eq) ↦ ground (arith, eq, park_done message raised (earlier + 1) w')
      ]
  attempts_after_done earlier (suc (suc left)) message e w =
      let (error, s) = p.handle e w.peers in
      let w' = record w {
        peers = s;
        calls = w.calls + 1;
        slept = w.slept + backoff_of cfg.backoff earlier;
      } in
      ground (arith, attempts_after_done (earlier + 1) (suc left) message e w')

  decided_done :
      (decoded : Decoded Event) (message : Message) (w : World S)
      → is_up decoded ≡ true
      → (decided cfg p decoded message w).0 ≡ true
  decided_done (event e) message w up = attempts_after_done 0 cfg.max_attempts message e w
  decided_done (serde_error error) message w up = park_done message error 0 w
  decided_done decoder_down message w up = cc

  process_done :
      (message : Message) (w : World S)
      → is_up (p.decode message.value w.peers).0 ≡ true
      → (process cfg p message w).0 ≡ true
  unfolding process
  process_done message w up =
      let (decoded, s) = p.decode message.value w.peers in
      decided_done decoded message (record w { peers = s }) up

  commit_done :
      ((s : S) → (p.commit s).0 ≡ true) → (read : ℕ) (w : World S) → (commit cfg p read w).0 ≡ true
  unfolding commit
  commit_done up read w = rw (up w.peers) refl

  -- When the dead letter topic takes what is parked, the decoder answers and the commits go through,
  -- a session goes through all its messages and commits them all, whatever the handler raises.
  pub consume_once_progress :
      ((value : ℕ) (s : S) → is_up (p.decode value s).0 ≡ true)
      → ((s : S) → (p.commit s).0 ≡ true)
      → 1 ≤ cfg.max_attempts
      → (read : List Message) (w : World S)
      → let (ended, w') = consume_once cfg p read w in
        (ended ≡ true) × (w'.committed ≡ w.committed + length read)
  unfolding consume_once
  consume_once_progress decoder_up commit_up many [] w = (refl, omega arith)
  consume_once_progress decoder_up commit_up many (message ∷ rest) w =
      let (decoded, s) = p.decode message.value w.peers in
      let w1 = (process cfg p message w).1 in
      let w2 = (commit cfg p 1 w1).1 in
      let processed = process_done message w (decoder_up message.value w.peers) in
      let moved = commit_done commit_up 1 w1 in
      let (ended, committed) = consume_once_progress decoder_up commit_up many rest w2 in
      let next = session_next cfg p many message rest w processed moved in
      (
        rw next ended,
        rw next (
            omega (
              arith,
              committed,
              commit-committed cfg p many 1 w1
                  ∙ ap (λ b. if b then w1.committed + 1 else w1.committed) moved,
              (process-Accounts cfg p message w many).1,
            )),
      )
