-- ===== src/Kafka/Attempts.antt =====
-- How often and how long `_process` of libs/smartfood-kafka/smartfood_kafka/consumer.py tries.
use smart_food_ops.Prelude.{
  ℕ, zero, suc, ◌+◌, ◌*◌, ◌-◌, ◌≤◌, ◌≡◌, ap, subst, arith, Option-cases, inl, inr,
}
use smart_food_ops.Kafka.Rows.{
  Message, Decoded, event, serde_error, decoder_down, Peers, Config, World,
}
use smart_food_ops.Kafka.Consumer.{backoff_of, park, attempts_after, decided, process}

pub suc_pred : (n : ℕ) → 1 ≤ n → suc (n - 1) ≡ n
suc_pred n h = omega arith

backoff_at : (backoff m n : ℕ) → m ≡ n → backoff_of backoff m ≡ backoff_of backoff n
backoff_at backoff m n eq = ap (backoff_of backoff) eq

backoff_of-suc : (backoff n : ℕ) → backoff_of backoff (n + 1) ≡ 2 * backoff_of backoff n
unfolding backoff_of
backoff_of-suc backoff n = backoff_at backoff (n + 1) (suc n) (omega arith)

backoff_of_grows : (backoff n k : ℕ) → backoff_of backoff n ≤ backoff_of backoff (n + k)
backoff_of_grows backoff n zero = omega (arith, backoff_at backoff (n + 0) (n) (omega arith))
backoff_of_grows backoff n (suc k) = omega (
  arith,
  backoff_of_grows backoff n k,
  backoff_of-suc backoff (n + k),
  backoff_at backoff (n + suc k) (n + k + 1) (omega arith),
)

module _ {S Event : Type 0} (cfg : Config) (p : Peers S Event) where
  park-counts :
      (message : Message) (error attempts : ℕ) (w : World S)
      → ((park cfg p message error attempts w).1.calls ≡ w.calls)
        × ((park cfg p message error attempts w).1.slept ≡ w.slept)
  unfolding park
  park-counts message error attempts w = (ground arith, ground arith)

  attempts_after-calls :
      (earlier left : ℕ) (message : Message) (e : Event) (w : World S)
      → (attempts_after cfg p earlier left message e w).1.calls ≤ w.calls + left
  unfolding attempts_after
  attempts_after-calls earlier zero message e w = omega arith
  attempts_after-calls earlier (suc zero) message e w =
      let (error, s) = p.handle e w.peers in
      let w' = record w { peers = s; calls = w.calls + 1 } in
      elim (Option-cases error) [
        | inl returned ↦ ground (arith, returned)
        | inr (raised, eq) ↦ ground (arith, eq, park-counts message raised (earlier + 1) w')
      ]
  attempts_after-calls earlier (suc (suc left)) message e w =
      let (error, s) = p.handle e w.peers in
      let w' = record w {
        peers = s;
        calls = w.calls + 1;
        slept = w.slept + backoff_of cfg.backoff earlier;
      } in
      ground (arith, attempts_after-calls (earlier + 1) (suc left) message e w')

  attempts_after-slept :
      (earlier left : ℕ) (message : Message) (e : Event) (w : World S)
      → (attempts_after cfg p earlier (suc left) message e w).1.slept
          + backoff_of cfg.backoff earlier
        ≤ w.slept + backoff_of cfg.backoff (earlier + left)
  unfolding attempts_after
  attempts_after-slept earlier zero message e w =
      let (error, s) = p.handle e w.peers in
      let w' = record w { peers = s; calls = w.calls + 1 } in
      elim (Option-cases error) [
        | inl returned ↦ ground (arith, returned)
        | inr (raised, eq) ↦ ground (arith, eq, park-counts message raised (earlier + 1) w')
      ]
  attempts_after-slept earlier (suc left) message e w =
      let (error, s) = p.handle e w.peers in
      let w' = record w {
        peers = s;
        calls = w.calls + 1;
        slept = w.slept + backoff_of cfg.backoff earlier;
      } in
      ground (
        arith,
        attempts_after-slept (earlier + 1) left message e w',
        backoff_of-suc cfg.backoff earlier,
        backoff_of_grows cfg.backoff earlier (suc left),
        backoff_at cfg.backoff (earlier + 1 + left) (earlier + suc left) (omega arith),
      )

  slept_after :
      (message : Message) (e : Event) (w : World S)
      → 1 ≤ cfg.max_attempts
      → (attempts_after cfg p 0 cfg.max_attempts message e w).1.slept + cfg.backoff
        ≤ w.slept + backoff_of cfg.backoff (cfg.max_attempts - 1)
  unfolding backoff_of
  slept_after message e w many =
      subst
        (λ left.
          (attempts_after cfg p 0 left message e w).1.slept + cfg.backoff
          ≤ w.slept + backoff_of cfg.backoff (cfg.max_attempts - 1))
        (suc_pred cfg.max_attempts many)
        (omega (
          arith,
          attempts_after-slept 0 (cfg.max_attempts - 1) message e w,
          backoff_at cfg.backoff (0 + (cfg.max_attempts - 1)) (cfg.max_attempts - 1) (omega arith),
        ))

  decided-bounds :
      (decoded : Decoded Event) (message : Message) (w : World S)
      → 1 ≤ cfg.max_attempts
      → ((decided cfg p decoded message w).1.calls ≤ w.calls + cfg.max_attempts)
        × ((decided cfg p decoded message w).1.slept + cfg.backoff
            ≤ w.slept + backoff_of cfg.backoff (cfg.max_attempts - 1))
  unfolding backoff_of
  decided-bounds (event e) message w many =
      (attempts_after-calls 0 cfg.max_attempts message e w, slept_after message e w many)
  decided-bounds (serde_error error) message w many =
      let (calls, slept) = park-counts message error 0 w in
      let grows = backoff_of_grows cfg.backoff 0 (cfg.max_attempts - 1) in
      let at =
        backoff_at cfg.backoff (0 + (cfg.max_attempts - 1)) (cfg.max_attempts - 1) (omega arith) in
      (omega (arith, calls), omega (arith, slept, grows, at))
  decided-bounds decoder_down message w many =
      let grows = backoff_of_grows cfg.backoff 0 (cfg.max_attempts - 1) in
      let at =
        backoff_at cfg.backoff (0 + (cfg.max_attempts - 1)) (cfg.max_attempts - 1) (omega arith) in
      (omega arith, omega (arith, grows, at))

  -- With `max_attempts` at least 1: one message costs at most `max_attempts` calls of the handler,
  -- and the backoff sleeps at most `backoff * 2 ** (max_attempts - 1) - backoff` in all, whatever the
  -- peers do.
  pub process_bounds :
      (message : Message) (w : World S)
      → 1 ≤ cfg.max_attempts
      → let w' = (process cfg p message w).1 in
        (w'.calls ≤ w.calls + cfg.max_attempts)
        × (w'.slept + cfg.backoff ≤ w.slept + backoff_of cfg.backoff (cfg.max_attempts - 1))
  unfolding process
  process_bounds message w many =
      let (decoded, s) = p.decode message.value w.peers in
      decided-bounds decoded message (record w { peers = s }) many
