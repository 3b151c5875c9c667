-- ===== src/Kafka/Settle.antt =====
-- What the batches of libs/smartfood-kafka/smartfood_kafka/consumer.py leave of each message.
use mathlib.Core.List.{Memᴰ}
use mathlib.Core.List.Memᴰ
use smart_food_ops.Prelude.{
  ℕ, zero, suc, ◌+◌, ◌-◌, ◌≤◌, ◌≡◌, refl, sym, ap, ◌∙◌, subst, Bool, true, false, none, some, List,
  [], ◌∷◌, ◌++◌, All, All-map, All-append, map, map-append, arith, Bool-cases, Option-cases, inl,
  inr,
}
use smart_food_ops.Kafka.Rows.{Message, handled, source, sources, Peers, Config, World}
use smart_food_ops.Kafka.Consumer.{backoff_of}
use smart_food_ops.Kafka.Fates.{Accounts, park-Accounts}
use smart_food_ops.Kafka.Attempts.{suc_pred}
use smart_food_ops.Kafka.Batch.{singles_after, each_single, handle_batch}

-- No fate is lost, the committed offset stays, and each of the messages has a fate if the call
-- returned.
pub record Settles {S : Type 0} (ms : List Message) (w : World S) (done : Bool) (w' : World S)
    : Type 0 where
  pub kept : (m : Message) → Memᴰ m (sources w) → Memᴰ m (sources w')
  pub fates : done ≡ true → All (λ m. Memᴰ m (sources w')) ms
  pub same : w'.committed ≡ w.committed

pub Accounts-Settles :
    {S : Type 0} (message : Message) (w : World S) (done : Bool) (w' : World S)
    → Accounts message w (done, w')
    → Settles (message ∷ []) w done w'
Accounts-Settles message w true w' (one, same) = record {
  kept = λ m h. subst (Memᴰ m) (sym one) (Memᴰ.append_left (message ∷ []) h);
  fates =
      λ _. (subst (Memᴰ message) (sym one) (Memᴰ.append_right (sources w) (Memᴰ.head refl)), tt);
  same = same;
}
Accounts-Settles message w false w' (one, same) = record {
  kept = λ m h. subst (Memᴰ m) (sym one) h;
  fates = λ q. cc;
  same = same;
}

Settles-next :
    {S : Type 0} (ms ms' : List Message) (w w1 w2 : World S) (done : Bool)
    → Settles ms w true w1
    → Settles ms' w1 done w2
    → Settles (ms ++ ms') w done w2
Settles-next ms ms' w w1 w2 done s t = record {
  kept = λ m h. t.kept m (s.kept m h);
  fates = λ q.
      All-append (λ m. Memᴰ m (sources w2)) ms ms' (All-map ms t.kept (s.fates refl)) (t.fates q);
  same = t.same ∙ s.same;
}

Settles-raised :
    {S : Type 0} (ms ms' : List Message) (w w' : World S)
    → Settles ms w false w'
    → Settles ms' w false w'
Settles-raised ms ms' w w' s = record { kept = s.kept; fates = λ q. cc; same = s.same }

sources_of_batch :
    {Event : Type 0} (batch : List (Message × Event))
    → map source (map (λ entry. handled entry.0) batch) ≡ map (λ entry. entry.0) batch
sources_of_batch [] = refl
sources_of_batch ((message, e) ∷ batch) = ap (λ ms. message ∷ ms) (sources_of_batch batch)

each_member : (ms : List Message) → All (λ m. Memᴰ m ms) ms
each_member [] = tt
each_member (m ∷ ms) = (Memᴰ.head refl, All-map ms (λ a h. Memᴰ.tail h) (each_member ms))

module _ {S Event : Type 0} (cfg : Config) (p : Peers S Event) where
  singles_after-Accounts :
      (earlier left : ℕ) (message : Message) (e : Event) (w : World S)
      → Accounts message w (singles_after cfg p earlier (suc left) message e w)
  unfolding singles_after
  singles_after-Accounts earlier zero message e w =
      let s = (p.handle_batch (e ∷ []) w.peers).1 in
      let w' = record w { peers = s; calls = w.calls + 1 } in
      elim (Option-cases (p.handle_batch (e ∷ []) w.peers).0) [
        | inl returned ↦ (
          ground (arith, returned, map-append source w.fates (handled message ∷ [])),
          ground (arith, returned),
        )
        | inr (raised, eq) ↦
            let (one, same) = park-Accounts cfg p message raised (earlier + 1) w' in
            (ground (arith, eq, one), ground (arith, eq, same))
      ]
  singles_after-Accounts earlier (suc left) message e w =
      let s = (p.handle_batch (e ∷ []) w.peers).1 in
      let w' = record w { peers = s; calls = w.calls + 1 } in
      let (one, same) =
        singles_after-Accounts (earlier + 1) left message e
          (record w' { slept = w.slept + backoff_of cfg.backoff earlier }) in
      elim (Option-cases (p.handle_batch (e ∷ []) w.peers).0) [
        | inl returned ↦ (
          ground (arith, returned, map-append source w.fates (handled message ∷ [])),
          ground (arith, returned),
        )
        | inr (raised, eq) ↦ (ground (arith, eq, one), ground (arith, eq, same))
      ]

  singles-Settles :
      (message : Message) (e : Event) (w : World S)
      → 1 ≤ cfg.max_attempts
      → let (done, w') = singles_after cfg p 0 cfg.max_attempts message e w in
        Settles (message ∷ []) w done w'
  singles-Settles message e w many =
      let (done, w') = singles_after cfg p 0 cfg.max_attempts message e w in
      Accounts-Settles message w done w' (
        subst (λ left. Accounts message w (singles_after cfg p 0 left message e w))
          (suc_pred cfg.max_attempts many)
          (singles_after-Accounts 0 (cfg.max_attempts - 1) message e w))

  module _ (message : Message) (e : Event) (batch : List (Message × Event)) (w : World S) where
    each_single_next :
        (singles_after cfg p 0 cfg.max_attempts message e w).0 ≡ true
        → each_single cfg p ((message, e) ∷ batch) w
          ≡ each_single cfg p batch (singles_after cfg p 0 cfg.max_attempts message e w).1
    unfolding each_single
    each_single_next done = ground arith

    each_single_raised :
        (singles_after cfg p 0 cfg.max_attempts message e w).0 ≡ false
        → each_single cfg p ((message, e) ∷ batch) w
          ≡ (false, (singles_after cfg p 0 cfg.max_attempts message e w).1)
    unfolding each_single
    each_single_raised raised = ground arith

  each_single-Settles :
      (batch : List (Message × Event)) (w : World S)
      → 1 ≤ cfg.max_attempts
      → let (done, w') = each_single cfg p batch w in
        Settles (map (λ entry. entry.0) batch) w done w'
  unfolding each_single
  each_single-Settles [] w many = record { kept = λ m h. h; fates = λ q. tt; same = refl }
  each_single-Settles ((message, e) ∷ batch) w many =
      let (done, w') = singles_after cfg p 0 cfg.max_attempts message e w in
      let ms = map (λ entry. entry.0) batch in
      let first = singles-Settles message e w many in
      let (done', w'') = each_single cfg p batch w' in
      elim (Bool-cases done) [
        | inl eq ↦
            subst (λ r. Settles (message ∷ ms) w r.0 r.1)
              (sym (each_single_next message e batch w eq))
              (Settles-next (message ∷ []) ms w w' w'' done'
                (subst (λ b. Settles (message ∷ []) w b w') eq first)
                (each_single-Settles batch w' many))
        | inr eq ↦
            subst (λ r. Settles (message ∷ ms) w r.0 r.1)
              (sym (each_single_raised message e batch w eq))
              (Settles-raised (message ∷ []) (message ∷ ms) w w'
                (subst (λ b. Settles (message ∷ []) w b w') eq first))
      ]

  handled-Settles :
      (batch : List (Message × Event)) (w : World S) (s : S)
      → Settles (map (λ entry. entry.0) batch) w true (record w {
        peers = s;
        calls = w.calls + 1;
        fates = w.fates ++ map (λ entry. handled entry.0) batch;
      })
  handled-Settles batch w s = record {
    kept = λ m h.
        subst (Memᴰ m) (sym (map-append source w.fates (map (λ entry. handled entry.0) batch)))
          (Memᴰ.append_left (map source (map (λ entry. handled entry.0) batch)) h);
    fates = λ q.
        All-map (map (λ entry. entry.0) batch)
          (λ m h.
            subst (Memᴰ m) (sym (map-append source w.fates (map (λ entry. handled entry.0) batch)))
              (Memᴰ.append_right (sources w) (subst (Memᴰ m) (sym (sources_of_batch batch)) h)))
          (each_member (map (λ entry. entry.0) batch));
    same = refl;
  }

  module _ (batch : List (Message × Event)) (w : World S) where
    abbrev called : World S
    called = record w {
      peers = (p.handle_batch (map (λ entry. entry.1) batch) w.peers).1;
      calls = w.calls + 1;
    }

    handle_batch_returned :
        (p.handle_batch (map (λ entry. entry.1) batch) w.peers).0 ≡ none
        → handle_batch cfg p batch w
          ≡ (true, record called { fates = w.fates ++ map (λ entry. handled entry.0) batch })
    unfolding handle_batch
    handle_batch_returned returned = ground (arith, returned)

    handle_batch_raised :
        (raised : ℕ)
        → (p.handle_batch (map (λ entry. entry.1) batch) w.peers).0 ≡ some raised
        → handle_batch cfg p batch w ≡ each_single cfg p batch called
    unfolding handle_batch
    handle_batch_raised raised eq = ground (arith, eq)

  pub handle_batch-Settles :
      (batch : List (Message × Event)) (w : World S)
      → 1 ≤ cfg.max_attempts
      → let (done, w') = handle_batch cfg p batch w in
        Settles (map (λ entry. entry.0) batch) w done w'
  handle_batch-Settles batch w many =
      elim (Option-cases (p.handle_batch (map (λ entry. entry.1) batch) w.peers).0) [
        | inl returned ↦
            subst (λ r. Settles (map (λ entry. entry.0) batch) w r.0 r.1)
              (sym (handle_batch_returned batch w returned))
              (handled-Settles batch w (called batch w).peers)
        | inr (raised, eq) ↦
            let s = each_single-Settles batch (called batch w) many in
            subst (λ r. Settles (map (λ entry. entry.0) batch) w r.0 r.1)
              (sym (handle_batch_raised batch w raised eq))
              (record { kept = s.kept; fates = s.fates; same = s.same })
      ]
