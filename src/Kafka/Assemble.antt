-- ===== src/Kafka/Assemble.antt =====
-- The batch that `consume_batches_once` of libs/smartfood-kafka/smartfood_kafka/consumer.py assembles:
-- what is not in it is parked.
use mathlib.Core.List.{Memᴰ}
use smart_food_ops.Prelude.{
  ℕ, ◌≡◌, refl, sym, ◌∙◌, subst, true, false, Option, none, some, List, [], ◌∷◌, All, All-map, map,
  arith, Bool-cases, inl, inr, ◌⊎◌,
}
use smart_food_ops.Kafka.Rows.{
  Message, Decoded, event, serde_error, decoder_down, sources, Peers, Config, World,
}
use smart_food_ops.Kafka.Consumer.{park}
use smart_food_ops.Kafka.Fates.{park-Accounts}
use smart_food_ops.Kafka.Settle.{Settles, Accounts-Settles}
use smart_food_ops.Kafka.Batch.{assemble}

-- The message has a fate or is in the batch.
abbrev pub Placed : {S Event : Type 0} → World S → List (Message × Event) → Message → Type 0
Placed w batch m = Memᴰ m (sources w) ⊎ Memᴰ m (map (λ entry. entry.0) batch)

abbrev pub AllPlaced :
    {S Event : Type 0} → List Message → World S → Option (List (Message × Event)) → Type 0
AllPlaced read w none = Unit
AllPlaced read w (some batch) = All (Placed w batch) read

pub record Assembles {S Event : Type 0} (read : List Message) (w : World S)
    (batch : Option (List (Message × Event))) (w' : World S) : Type 0 where
  pub kept : (m : Message) → Memᴰ m (sources w) → Memᴰ m (sources w')
  pub placed : AllPlaced read w' batch
  pub same : w'.committed ≡ w.committed

later-Placed :
    {S Event : Type 0} (w : World S) (entry : Message × Event) (batch : List (Message × Event))
    (m : Message)
    → Placed w batch m
    → Placed w (entry ∷ batch) m
later-Placed w entry batch m (inl fate) = inl fate
later-Placed w entry batch m (inr listed) = inr (Memᴰ.tail listed)

Decoded-cases :
    {Event : Type 0} (d : Decoded Event)
    → ((e : Event) × (d ≡ event e)) ⊎ (((error : ℕ) × (d ≡ serde_error error)) ⊎ (d ≡ decoder_down))
Decoded-cases (event e) = inl (e, refl)
Decoded-cases (serde_error error) = inr (inl (error, refl))
Decoded-cases decoder_down = inr (inr refl)

raised-Assembles :
    {S Event : Type 0} (read : List Message) (w w' : World S)
    → ((m : Message) → Memᴰ m (sources w) → Memᴰ m (sources w'))
    → w'.committed ≡ w.committed
    → Assembles {Event = Event} read w none w'
raised-Assembles read w w' kept same = record { kept = kept; placed = tt; same = same }

decoded-Assembles :
    {S Event : Type 0} (message : Message) (e : Event) (rest : List Message) (w : World S)
    (batch : Option (List (Message × Event))) (w' : World S)
    → Assembles rest w batch w'
    → Assembles
        (message ∷ rest)
        w
        (elim batch [ none ↦ none | some entries ↦ some ((message, e) ∷ entries) ])
        w'
decoded-Assembles message e rest w none w' a = record { kept = a.kept; placed = tt; same = a.same }
decoded-Assembles message e rest w (some batch) w' a = record {
  kept = a.kept;
  placed = (inr (Memᴰ.head refl), All-map rest (later-Placed w' (message, e) batch) a.placed);
  same = a.same;
}

parked-Assembles :
    {S Event : Type 0} (message : Message) (rest : List Message) (w w1 : World S)
    (batch : Option (List (Message × Event))) (w' : World S)
    → Settles (message ∷ []) w true w1
    → Assembles rest w1 batch w'
    → Assembles (message ∷ rest) w batch w'
parked-Assembles message rest w w1 none w' s a = record {
  kept = λ m h. a.kept m (s.kept m h);
  placed = tt;
  same = a.same ∙ s.same;
}
parked-Assembles message rest w w1 (some batch) w' s a = record {
  kept = λ m h. a.kept m (s.kept m h);
  placed = (inl (a.kept message (s.fates refl).0), a.placed);
  same = a.same ∙ s.same;
}

module _ {S Event : Type 0} (cfg : Config) (p : Peers S Event) where
  module _ (message : Message) (rest : List Message) (w : World S) where
    abbrev after_decode : World S
    after_decode = record w { peers = (p.decode message.value w.peers).1 }

    assemble_event :
        (e : Event)
        → (p.decode message.value w.peers).0 ≡ event e
        → assemble cfg p (message ∷ rest) w ≡ (
          elim (assemble cfg p rest after_decode).0 [
            | none ↦ none
            | some entries ↦ some ((message, e) ∷ entries)
          ],
          (assemble cfg p rest after_decode).1,
        )
    unfolding assemble
    assemble_event e eq = ground (arith, eq)

    assemble_parked :
        (error : ℕ)
        → (p.decode message.value w.peers).0 ≡ serde_error error
        → (park cfg p message error 0 after_decode).0 ≡ true
        → assemble cfg p (message ∷ rest) w
          ≡ assemble cfg p rest (park cfg p message error 0 after_decode).1
    unfolding assemble
    assemble_parked error eq sent = ground (arith, eq)

    assemble_refused :
        (error : ℕ)
        → (p.decode message.value w.peers).0 ≡ serde_error error
        → (park cfg p message error 0 after_decode).0 ≡ false
        → assemble cfg p (message ∷ rest) w ≡ (none, (park cfg p message error 0 after_decode).1)
    unfolding assemble
    assemble_refused error eq refused = ground (arith, eq)

    assemble_down :
        (p.decode message.value w.peers).0 ≡ decoder_down
        → assemble cfg p (message ∷ rest) w ≡ (none, after_decode)
    unfolding assemble
    assemble_down eq = ground (arith, eq)

  pub assemble-Assembles :
      (read : List Message) (w : World S)
      → let (batch, w') = assemble cfg p read w in Assembles read w batch w'
  unfolding assemble
  assemble-Assembles [] w = record { kept = λ m h. h; placed = tt; same = refl }
  assemble-Assembles (message ∷ rest) w =
      let decoded = (p.decode message.value w.peers).0 in
      let w1 = after_decode message rest w in
      elim (Decoded-cases decoded) [
        | inl (e, eq) ↦
            let a = assemble-Assembles rest w1 in
            subst (λ r. Assembles (message ∷ rest) w r.0 r.1)
              (sym (assemble_event message rest w e eq))
              (decoded-Assembles message e rest w (assemble cfg p rest w1).0
                (assemble cfg p rest w1).1
                (record { kept = a.kept; placed = a.placed; same = a.same }))
        | inr (inr eq) ↦
            subst (λ r. Assembles (message ∷ rest) w r.0 r.1)
              (sym (assemble_down message rest w eq))
              (raised-Assembles (message ∷ rest) w w1 (λ m h. h) refl)
        | inr (inl (error, eq)) ↦
            let (sent, w2) = park cfg p message error 0 w1 in
            let one = park-Accounts cfg p message error 0 w1 in
            let s = Accounts-Settles message w1 sent w2 one in
            elim (Bool-cases sent) [
              | inl yes_sent ↦
                  subst (λ r. Assembles (message ∷ rest) w r.0 r.1)
                    (sym (assemble_parked message rest w error eq yes_sent))
                    (parked-Assembles message rest w w2 (assemble cfg p rest w2).0
                      (assemble cfg p rest w2).1
                      (subst (λ b. Settles (message ∷ []) w b w2) yes_sent
                        (record { kept = s.kept; fates = s.fates; same = s.same }))
                      (assemble-Assembles rest w2))
              | inr refused ↦
                  subst (λ r. Assembles (message ∷ rest) w r.0 r.1)
                    (sym (assemble_refused message rest w error eq refused))
                    (raised-Assembles (message ∷ rest) w w2 s.kept s.same)
            ]
      ]
