-- ===== src/Kafka/Delivered.antt =====
-- At least once: what `run` of libs/smartfood-kafka/smartfood_kafka/consumer.py commits over a whole
-- partition.
use mathlib.Core.List.{Memᴰ}
use smart_food_ops.Prelude.{
  ℕ, zero, suc, ◌+◌, ◌≤◌, ◌≡◌, refl, sym, ap, ◌∙◌, subst, List, [], ◌∷◌, ◌++◌, All, All-map,
  All-append, length, drop, take, arith,
}
use smart_food_ops.Kafka.Rows.{Message, sources, Peers, Config, World}
use smart_food_ops.Kafka.Consumer.{consume_once, run}
use smart_food_ops.Kafka.Session.{Commits, consume_once-Commits}

append_assoc : {A : Type 0} (xs ys zs : List A) → (xs ++ ys) ++ zs ≡ xs ++ (ys ++ zs)
append_assoc [] ys zs = refl
append_assoc (x ∷ xs) ys zs = ap (λ us. x ∷ us) (append_assoc xs ys zs)

take-drop : {A : Type 0} (n : ℕ) (xs : List A) → take n xs ++ drop n xs ≡ xs
take-drop zero xs = refl
take-drop (suc n) [] = refl
take-drop (suc n) (x ∷ xs) = ap (λ us. x ∷ us) (take-drop n xs)

zero_add : (n : ℕ) → 0 + n ≡ n
zero_add n = omega arith

suc_add : (n m : ℕ) → suc n + m ≡ suc (n + m)
suc_add n m = omega arith

take_nil : {A : Type 0} (n : ℕ) (xs : List A) → xs ≡ [] → take n xs ≡ []
take_nil zero xs eq = refl
take_nil (suc n) [] eq = refl
take_nil (suc n) (x ∷ xs) eq = cc

take_all : {A : Type 0} (done left : List A) → take (length done) (done ++ left) ≡ done
take_all [] left = refl
take_all (x ∷ done) left = ap (λ us. x ∷ us) (take_all done left)

take_past :
    {A : Type 0} (n : ℕ) (xs done left : List A)
    → drop n xs ≡ done ++ left
    → take (n + length done) xs ≡ take n xs ++ done
take_past zero xs done left eq =
    ap (λ k. take k xs) (zero_add (length done)) ∙ ap (take (length done)) eq ∙ take_all done left
take_past (suc n) [] [] left eq = take_nil (suc n + 0) [] refl
take_past (suc n) [] (x ∷ done) left eq = cc
take_past (suc n) (x ∷ xs) done left eq =
    ap (λ k. take k (x ∷ xs)) (suc_add n (length done))
    ∙ ap (λ us. x ∷ us) (take_past n xs done left eq)

-- Every message before the committed offset has a fate.
unfoldable pub IsCovered : {S : Type 0} → List Message → World S → Type 0
IsCovered partition w = All (λ m. Memᴰ m (sources w)) (take w.committed partition)

pub Commits-IsCovered :
    {S : Type 0} (partition : List Message) (given : ℕ) (w w' : World S)
    → Commits (take given (drop w.committed partition)) w w'
    → IsCovered partition w
    → IsCovered partition w'
unfolding IsCovered
Commits-IsCovered partition given w w' c covered =
    subst (All (λ m. Memᴰ m (sources w')))
      (sym (
        ap (λ n. take n partition) c.moved
        ∙ take_past w.committed partition c.done (c.left ++ drop given (drop w.committed partition))
            (sym (take-drop given (drop w.committed partition))
              ∙ ap (λ ms. ms ++ drop given (drop w.committed partition)) c.split
              ∙ append_assoc c.done c.left (drop given (drop w.committed partition)))))
      (All-append (λ m. Memᴰ m (sources w')) (take w.committed partition) c.done
        (All-map (take w.committed partition) c.kept covered) c.accounted)

module _ {S Event : Type 0} (cfg : Config) (p : Peers S Event) (many : 1 ≤ cfg.max_attempts) where
  -- With at least one attempt a message: sessions that start from the committed offset and end, or
  -- crash, anywhere, whatever the peers answer: at every moment each message of the partition before
  -- the committed offset was handled or parked.
  pub run-IsCovered :
      (partition : List Message) (sessions : List ℕ) (w : World S)
      → IsCovered partition w
      → IsCovered partition (run cfg p partition sessions w)
  unfolding run
  run-IsCovered partition [] w covered = covered
  run-IsCovered partition (given ∷ sessions) w covered =
      let w' = (consume_once cfg p (take given (drop w.committed partition)) w).1 in
      run-IsCovered partition sessions w' (
        Commits-IsCovered partition given w w'
          (consume_once-Commits cfg p many (take given (drop w.committed partition)) w) covered)
