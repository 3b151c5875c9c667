-- ===== src/Kafka/Batches.antt =====
-- At least once in batches: what `consume_batches_once` and `run_batches` of
-- libs/smartfood-kafka/smartfood_kafka/consumer.py commit.
use mathlib.Core.List.{Memᴰ}
use smart_food_ops.Prelude.{
  ℕ, ◌≤◌, ◌≡◌, refl, sym, ap, ◌∙◌, subst, Bool, true, false, Option, none, some, List, [], ◌∷◌,
  ◌++◌, All, All-map, map, drop, take, length, arith, if◌then◌else◌, Bool-cases, inl, inr,
}
use smart_food_ops.Kafka.Rows.{Message, sources, Peers, Config, World}
use smart_food_ops.Kafka.Consumer.{commit}
use smart_food_ops.Kafka.Session.{Commits, nothing-Commits, commit-sources, commit-committed}
use smart_food_ops.Kafka.Delivered.{IsCovered, Commits-IsCovered}
use smart_food_ops.Kafka.Settle.{handle_batch-Settles}
use smart_food_ops.Kafka.Assemble.{Placed, Assembles, assemble-Assembles}
use smart_food_ops.Kafka.Batch.{
  handle_batch, assemble, handed, consume_batch, consume_batches_once, run_batches,
}

append_nil : {A : Type 0} (xs : List A) → xs ≡ xs ++ []
append_nil [] = refl
append_nil (x ∷ xs) = ap (λ us. x ∷ us) (append_nil xs)

member : (P : Message → Type 0) (ms : List Message) (m : Message) → All P ms → Memᴰ m ms → P m
member P [] m h listed = elim listed [ ]
member P (x ∷ ms) m (h, hs) (Memᴰ.head eq) = subst P (sym eq) h
member P (x ∷ ms) m (h, hs) (Memᴰ.tail listed) = member P ms m hs listed

module _ {S Event : Type 0} (cfg : Config) (p : Peers S Event) (many : 1 ≤ cfg.max_attempts) where
  -- The commit of a poll all of whose messages have fates.
  commit-Commits :
      (read : List Message) (w w' : World S)
      → ((m : Message) → Memᴰ m (sources w) → Memᴰ m (sources w'))
      → All (λ m. Memᴰ m (sources w')) read
      → w'.committed ≡ w.committed
      → Commits read w (commit cfg p (length read) w').1
  commit-Commits read w w' kept fates same =
      let w'' = (commit cfg p (length read) w').1 in
      let seen = commit-sources cfg p many (length read) w' in
      let moved = commit-committed cfg p many (length read) w' in
      let kept' : (m : Message) → Memᴰ m (sources w) → Memᴰ m (sources w'') =
        λ m h. subst (Memᴰ m) (sym seen) (kept m h) in
      elim (Bool-cases (commit cfg p (length read) w').0) [
        | inr raised ↦ nothing-Commits read w w'' kept' (ground (arith, moved, raised, same))
        | inl done ↦ record {
          done = read;
          left = [];
          split = append_nil read;
          moved = ground (arith, moved, done, same);
          accounted = All-map read (λ m h. subst (Memᴰ m) (sym seen) h) fates;
          kept = kept';
        }
      ]

  batch_fates :
      (entries : List (Message × Event)) (read : List Message) (w w' : World S)
      → ((m : Message) → Memᴰ m (sources w) → Memᴰ m (sources w'))
      → All (λ m. Memᴰ m (sources w')) (map (λ entry. entry.0) entries)
      → All (Placed w entries) read
      → All (λ m. Memᴰ m (sources w')) read
  batch_fates entries read w w' kept fates placed = All-map read (λ m h. fate_of m h) placed
    where
      fate_of : (m : Message) → Placed w entries m → Memᴰ m (sources w')
      fate_of m (inl fate) = kept m fate
      fate_of m (inr listed) =
          member (λ n. Memᴰ n (sources w')) (map (λ entry. entry.0) entries) m fates listed

  module _ (read : List Message) (first : Message × Event) (rest : List (Message × Event))
      (w : World S) where
    handed_done :
        (handle_batch cfg p (first ∷ rest) w).0 ≡ true
        → handed cfg p read (some (first ∷ rest)) w
          ≡ commit cfg p (length read) (handle_batch cfg p (first ∷ rest) w).1
    unfolding handed
    handed_done done = ground arith

    handed_raised :
        (handle_batch cfg p (first ∷ rest) w).0 ≡ false
        → handed cfg p read (some (first ∷ rest)) w
          ≡ (false, (handle_batch cfg p (first ∷ rest) w).1)
    unfolding handed
    handed_raised raised = ground arith

  handed-Commits :
      (read : List Message) (w : World S) (batch : Option (List (Message × Event))) (w1 : World S)
      → Assembles read w batch w1
      → Commits read w (handed cfg p read batch w1).1
  unfolding handed
  handed-Commits read w none w1 a = nothing-Commits read w w1 a.kept a.same
  handed-Commits read w (some []) w1 a =
      commit-Commits read w w1 a.kept (batch_fates [] read w1 w1 (λ m h. h) tt a.placed) a.same
  handed-Commits read w (some (first ∷ rest)) w1 a =
      let (done, w2) = handle_batch cfg p (first ∷ rest) w1 in
      let s = handle_batch-Settles cfg p (first ∷ rest) w1 many in
      elim (Bool-cases done) [
        | inl eq ↦
            subst (λ (r : Bool × World S). Commits read w r.1)
              (sym (handed_done read first rest w1 eq))
              (commit-Commits read w w2 (λ m h. s.kept m (a.kept m h))
                (batch_fates (first ∷ rest) read w1 w2 s.kept (s.fates eq) a.placed)
                (s.same ∙ a.same))
        | inr eq ↦
            subst (λ (r : Bool × World S). Commits read w r.1)
              (sym (handed_raised read first rest w1 eq))
              (nothing-Commits read w w2 (λ m h. s.kept m (a.kept m h)) (s.same ∙ a.same))
      ]

  consume_batch-Commits :
      (read : List Message) (w : World S) → Commits read w (consume_batch cfg p read w).1
  unfolding consume_batch
  consume_batch-Commits read w =
      let (batch, w') = assemble cfg p read w in
      handed-Commits read w batch w' (assemble-Assembles cfg p read w)

  consume_batches_once-IsCovered :
      (partition : List Message) (polls : List ℕ) (w : World S)
      → IsCovered partition w
      → IsCovered partition (consume_batches_once cfg p partition polls w).1
  unfolding consume_batches_once
  consume_batches_once-IsCovered partition [] w covered = covered
  consume_batches_once-IsCovered partition (polled ∷ polls) w covered =
      let read = take polled (drop w.committed partition) in
      let w' = (consume_batch cfg p read w).1 in
      either_way (consume_batch cfg p read w).0 w' (consume_batches_once cfg p partition polls w')
        (Commits-IsCovered partition polled w w' (consume_batch-Commits read w) covered)
        (consume_batches_once-IsCovered partition polls w'
          (Commits-IsCovered partition polled w w' (consume_batch-Commits read w) covered))
    where
      either_way :
          (done : Bool) (w' : World S) (later : Bool × World S)
          → IsCovered partition w'
          → IsCovered partition later.1
          → IsCovered partition (if done then later else (false, w')).1
      either_way true w' later h h' = h'
      either_way false w' later h h' = h

  -- With at least one attempt a message: batch sessions, each of any polls, that end or crash
  -- anywhere, whatever the peers answer: at every moment each message of the partition before the
  -- committed offset was handled, in its batch or alone, or parked.
  pub run_batches-IsCovered :
      (partition : List Message) (sessions : List (List ℕ)) (w : World S)
      → IsCovered partition w
      → IsCovered partition (run_batches cfg p partition sessions w)
  unfolding run_batches
  run_batches-IsCovered partition [] w covered = covered
  run_batches-IsCovered partition (polls ∷ sessions) w covered =
      run_batches-IsCovered partition sessions (consume_batches_once cfg p partition polls w).1
        (consume_batches_once-IsCovered partition polls w covered)
