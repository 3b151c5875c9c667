-- ===== src/Kafka/Session.antt =====
-- What the sessions of libs/smartfood-kafka/smartfood_kafka/consumer.py commit: `consume_once` and
-- `run`.
use mathlib.Core.List.{Memᴰ}
use mathlib.Core.List.Memᴰ
use smart_food_ops.Prelude.{
  ℕ, ◌+◌, ◌≤◌, ◌≡◌, refl, sym, ap, ◌∙◌, subst, Bool, true, false, List, [], ◌∷◌, ◌++◌, All, length,
  arith, if◌then◌else◌, Bool-cases, inl, inr,
}
use smart_food_ops.Kafka.Rows.{Message, sources, Peers, Config, World}
use smart_food_ops.Kafka.Consumer.{process, commit, consume_once}
use smart_food_ops.Kafka.Fates.{process-Accounts}

-- Of the messages read, a prefix is committed, and each of it has a fate; no fate is lost.
pub record Commits {S : Type 0} (read : List Message) (w w' : World S) : Type 0 where
  pub done : List Message
  pub left : List Message
  pub split : read ≡ done ++ left
  pub moved : w'.committed ≡ w.committed + length done
  pub accounted : All (λ m. Memᴰ m (sources w')) done
  pub kept : (m : Message) → Memᴰ m (sources w) → Memᴰ m (sources w')

pub nothing-Commits :
    {S : Type 0} (read : List Message) (w w' : World S)
    → ((m : Message) → Memᴰ m (sources w) → Memᴰ m (sources w'))
    → w'.committed ≡ w.committed
    → Commits read w w'
nothing-Commits read w w' kept same = record {
  done = [];
  left = read;
  split = refl;
  moved = omega (arith, same);
  accounted = tt;
  kept = kept;
}

kept_if :
    {m : Message} {xs : List Message} (last : Message) (b : Bool)
    → Memᴰ m xs
    → Memᴰ m (if b then xs ++ last ∷ [] else xs)
kept_if last true h = Memᴰ.append_left (last ∷ []) h
kept_if last false h = h

module _ {S Event : Type 0} (cfg : Config) (p : Peers S Event) (many : 1 ≤ cfg.max_attempts) where
  process-kept :
      (message : Message) (w : World S) (m : Message)
      → Memᴰ m (sources w)
      → Memᴰ m (sources (process cfg p message w).1)
  process-kept message w m h =
      subst (Memᴰ m) (sym (process-Accounts cfg p message w many).0)
        (kept_if message (process cfg p message w).0 h)

  process-fate :
      (message : Message) (w : World S)
      → (process cfg p message w).0 ≡ true
      → Memᴰ message (sources (process cfg p message w).1)
  process-fate message w done =
      subst (Memᴰ message)
        (sym (
          (process-Accounts cfg p message w many).0
          ∙ ap (λ b. if b then sources w ++ message ∷ [] else sources w) done))
        (Memᴰ.append_right (sources w) (Memᴰ.head refl))

  pub commit-sources : (read : ℕ) (w : World S) → sources (commit cfg p read w).1 ≡ sources w
  unfolding commit
  commit-sources read w = ground arith

  pub commit-committed :
      (read : ℕ) (w : World S)
      → (commit cfg p read w).1.committed
        ≡ (if (commit cfg p read w).0 then w.committed + read else w.committed)
  unfolding commit
  commit-committed read w = ground arith

  -- What the rest of the session does after a message that was handled and committed.
  next-Commits :
      (message : Message) (rest : List Message) (w w2 w' : World S)
      → w2.committed ≡ w.committed + 1
      → Memᴰ message (sources w2)
      → ((m : Message) → Memᴰ m (sources w) → Memᴰ m (sources w2))
      → Commits rest w2 w'
      → Commits (message ∷ rest) w w'
  next-Commits message rest w w2 w' one fate kept c = record {
    done = message ∷ c.done;
    left = c.left;
    split = ap (λ ms. message ∷ ms) c.split;
    moved = omega (arith, one, c.moved);
    accounted = (c.kept message fate, c.accounted);
    kept = λ m h. c.kept m (kept m h);
  }

  module _ (message : Message) (rest : List Message) (w : World S) where
    abbrev after_process : Bool × World S
    after_process = process cfg p message w

    abbrev after_commit : Bool × World S
    after_commit = commit cfg p 1 after_process.1

    after_commit-kept : (m : Message) → Memᴰ m (sources w) → Memᴰ m (sources after_commit.1)
    after_commit-kept m h =
        subst (Memᴰ m) (sym (commit-sources 1 after_process.1)) (process-kept message w m h)

    session_raised :
        after_process.0 ≡ false → consume_once cfg p (message ∷ rest) w ≡ (false, after_process.1)
    unfolding consume_once
    session_raised raised = ground arith

    session_uncommitted :
        after_process.0 ≡ true
        → after_commit.0 ≡ false
        → consume_once cfg p (message ∷ rest) w ≡ (false, after_commit.1)
    unfolding consume_once
    session_uncommitted done raised = ground arith

    pub session_next :
        after_process.0 ≡ true
        → after_commit.0 ≡ true
        → consume_once cfg p (message ∷ rest) w ≡ consume_once cfg p rest after_commit.1
    unfolding consume_once
    session_next done moved = ground arith

  pub consume_once-Commits :
      (read : List Message) (w : World S) → Commits read w (consume_once cfg p read w).1
  unfolding consume_once
  consume_once-Commits [] w = nothing-Commits [] w w (λ m h. h) refl
  consume_once-Commits (message ∷ rest) w =
      let w1 = (process cfg p message w).1 in
      let w2 = (commit cfg p 1 w1).1 in
      let same = (process-Accounts cfg p message w many).1 in
      let committed = commit-committed 1 w1 in
      elim (Bool-cases (process cfg p message w).0) [
        | inr raised ↦
            subst (λ r. Commits (message ∷ rest) w r.1) (sym (session_raised message rest w raised))
              (nothing-Commits (message ∷ rest) w w1 (process-kept message w) same)
        | inl done ↦ elim (Bool-cases (commit cfg p 1 w1).0) [
          | inr raised ↦
              subst (λ r. Commits (message ∷ rest) w r.1)
                (sym (session_uncommitted message rest w done raised))
                (nothing-Commits (message ∷ rest) w w2 (after_commit-kept message rest w)
                  (ground (arith, same, committed, raised)))
          | inl moved ↦
              subst (λ r. Commits (message ∷ rest) w r.1)
                (sym (session_next message rest w done moved))
                (next-Commits message rest w w2 (consume_once cfg p rest w2).1
                  (ground (arith, same, committed, moved))
                  (subst (Memᴰ message) (sym (commit-sources 1 w1)) (process-fate message w done))
                  (after_commit-kept message rest w) (consume_once-Commits rest w2))
        ]
      ]
