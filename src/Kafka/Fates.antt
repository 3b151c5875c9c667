-- ===== src/Kafka/Fates.antt =====
-- Every message that a session of libs/smartfood-kafka/smartfood_kafka/consumer.py accounts for has a
-- fate.
use smart_food_ops.Prelude.{
  ℕ, zero, suc, ◌+◌, ◌-◌, ◌≤◌, ◌≡◌, refl, subst, Bool, [], ◌∷◌, ◌++◌, map-append, arith,
  if◌then◌else◌, Option-cases, inl, inr,
}
use smart_food_ops.Kafka.Rows.{
  Message, Decoded, event, serde_error, decoder_down, handled, parked, source, sources, Peers,
  Config, World,
}
use smart_food_ops.Kafka.Consumer.{backoff_of, park, attempts_after, decided, process}

-- The message got its one fate, or the call raised and it got none.
abbrev pub Accounts : {S : Type 0} → Message → World S → Bool × World S → Type 0
Accounts message w (done, w') =
    (sources w' ≡ (if done then sources w ++ message ∷ [] else sources w))
    × (w'.committed ≡ w.committed)

module _ {S Event : Type 0} (cfg : Config) (p : Peers S Event) where
  pub park-Accounts :
      (message : Message) (error attempts : ℕ) (w : World S)
      → Accounts message w (park cfg p message error attempts w)
  unfolding park
  park-Accounts message error attempts w =
      (ground (arith, map-append source w.fates (parked message attempts error ∷ [])), ground arith)

  attempts_after-Accounts :
      (earlier left : ℕ) (message : Message) (e : Event) (w : World S)
      → Accounts message w (attempts_after cfg p earlier (suc left) message e w)
  unfolding attempts_after
  attempts_after-Accounts earlier zero message e w =
      let s = (p.handle e w.peers).1 in
      let w' = record w { peers = s; calls = w.calls + 1 } in
      elim (Option-cases (p.handle e w.peers).0) [
        | inl returned ↦ (
          ground (arith, returned, map-append source w.fates (handled message ∷ [])),
          ground (arith, returned),
        )
        | inr (raised, eq) ↦
            let (one, same) = park-Accounts message raised (earlier + 1) w' in
            (ground (arith, eq, one), ground (arith, eq, same))
      ]
  attempts_after-Accounts earlier (suc left) message e w =
      let s = (p.handle e w.peers).1 in
      let w' = record w { peers = s; calls = w.calls + 1 } in
      let (one, same) =
        attempts_after-Accounts (earlier + 1) left message e
          (record w' { slept = w.slept + backoff_of cfg.backoff earlier }) in
      elim (Option-cases (p.handle e w.peers).0) [
        | inl returned ↦ (
          ground (arith, returned, map-append source w.fates (handled message ∷ [])),
          ground (arith, returned),
        )
        | inr (raised, eq) ↦ (ground (arith, eq, one), ground (arith, eq, same))
      ]

  decided-Accounts :
      (decoded : Decoded Event) (message : Message) (w : World S)
      → 1 ≤ cfg.max_attempts
      → Accounts message w (decided cfg p decoded message w)
  decided-Accounts (event e) message w many =
      subst (λ left. Accounts message w (attempts_after cfg p 0 left message e w)) (omega arith)
        (attempts_after-Accounts 0 (cfg.max_attempts - 1) message e w)
  decided-Accounts (serde_error error) message w many = park-Accounts message error 0 w
  decided-Accounts decoder_down message w many = (refl, refl)

  -- With at least one attempt, whatever the decoder, the handler and the dead letter topic do: a
  -- message that `_process` returns from has got one fate, handled or parked, and one that it raises
  -- on has got none; the committed offset does not move.
  pub process-Accounts :
      (message : Message) (w : World S)
      → 1 ≤ cfg.max_attempts
      → Accounts message w (process cfg p message w)
  unfolding process
  process-Accounts message w many =
      let (decoded, s) = p.decode message.value w.peers in
      decided-Accounts decoded message (record w { peers = s }) many
