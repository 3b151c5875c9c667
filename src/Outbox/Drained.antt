-- ===== src/Outbox/Drained.antt =====
-- The backlog of libs/smartfood-outbox/smartfood_outbox/poller.py goes out when the broker answers.
use mathlib.Core.List.{Memᴰ}
use smart_food_ops.Prelude.{
  ℕ, zero, suc, ◌+◌, ◌≤◌, ◌≡◌, refl, sym, ap, ◌∙◌, subst, Bool, true, false, List, [], ◌∷◌, ◌++◌,
  All, map, take, length, arith, if◌then◌else◌, inl, inr, ◌⊎◌,
}
use smart_food_ops.Outbox.Rows.{Row, Sent, record_of, World, has_id}
use smart_food_ops.Outbox.Poller.{
  Config, Pass, drains, is_pending, insert_row, order_rows, pending, mark, send_all, batch_of,
  publish, drain_once, run,
}
use smart_food_ops.Outbox.Select.{batch-mem, mem-has_id}

unfoldable pub waiting : List Row → ℕ
waiting [] = 0
waiting (row ∷ rows) = (if is_pending row then 1 else 0) + waiting rows

mark-waiting : (now : ℕ) (batch rows : List Row) → waiting (mark now batch rows) ≤ waiting rows
unfolding mark waiting
mark-waiting now batch [] = omega arith
mark-waiting now batch (row ∷ rows) = ground (arith, mark-waiting now batch rows)

mark-waiting_less :
    (now : ℕ) (batch rows : List Row) (r : Row)
    → Memᴰ r rows
    → is_pending r ≡ true
    → has_id r.id batch ≡ true
    → waiting (mark now batch rows) + 1 ≤ waiting rows
unfolding mark waiting
mark-waiting_less now batch [] r m waits listed = elim m [ ]
mark-waiting_less now batch (row ∷ rows) r (Memᴰ.head eq) waits listed =
    let waits' = sym (ap is_pending eq) ∙ waits in
    let listed' = sym (ap (λ (x : Row). has_id x.id batch) eq) ∙ listed in
    ground (arith, mark-waiting now batch rows, waits', listed')
mark-waiting_less now batch (row ∷ rows) r (Memᴰ.tail m) waits listed =
    ground (arith, mark-waiting_less now batch rows r m waits listed)

length-insert_row : (row : Row) (rows : List Row) → length (insert_row row rows) ≡ suc (length rows)
unfolding insert_row
length-insert_row row [] = refl
length-insert_row row (first ∷ rest) = ground (arith, length-insert_row row rest)

length-order_rows : (rows : List Row) → length (order_rows rows) ≡ length rows
unfolding order_rows
length-order_rows [] = refl
length-order_rows (row ∷ rows) =
    ground (arith, length-order_rows rows, length-insert_row row (order_rows rows))

length-pending :
    (locked : ℕ → Bool) (rows : List Row)
    → ((id : ℕ) → locked id ≡ false)
    → length (pending locked rows) ≡ waiting rows
unfolding pending waiting
length-pending locked [] free = refl
length-pending locked (row ∷ rows) free =
    ground (arith, length-pending locked rows free, free row.id)

taken_some : {A : Type 0} (n : ℕ) (xs : List A) → 1 ≤ n → take n xs ≡ [] → length xs ≡ 0
taken_some zero xs h q = omega arith
taken_some (suc n) [] h q = refl
taken_some (suc n) (x ∷ xs) h q = cc

-- The drain meets no lock and its transaction commits.
pub record IsHealthy (pass : Pass) : Type 0 where
  pub free : (id : ℕ) → pass.locked id ≡ false
  pub commits : pass.commits ≡ true

module _ {S : Type 0} (cfg : Config S)
    (broker_up : (s : Sent) (b : S) → (cfg.send s b).0 ≡ true) where
  send_all_done : (batch : List Row) (w : World S) → (send_all cfg batch w).0 ≡ true
  unfolding send_all
  send_all_done [] w = refl
  send_all_done (row ∷ rows) w =
      let (ok, broker) = cfg.send (record_of cfg.own_cell row) w.broker in
      let rest =
        send_all_done rows
          (record w { broker = broker; sent = w.sent ++ record_of cfg.own_cell row ∷ [] }) in
      ground (arith, broker_up (record_of cfg.own_cell row) w.broker, rest)

  send_all-rows : (batch : List Row) (w : World S) → (send_all cfg batch w).1.rows ≡ w.rows
  unfolding send_all
  send_all-rows [] w = refl
  send_all-rows (row ∷ rows) w =
      let (ok, broker) = cfg.send (record_of cfg.own_cell row) w.broker in
      let rest =
        send_all-rows rows
          (record w { broker = broker; sent = w.sent ++ record_of cfg.own_cell row ∷ [] }) in
      ground (arith, rest)

  publish-rows :
      (pass : Pass) (row : Row) (rows : List Row) (w : World S)
      → pass.commits ≡ true
      → (publish cfg pass (row ∷ rows) w).1.rows ≡ mark pass.now (row ∷ rows) w.rows
  unfolding publish
  publish-rows pass row rows w commits =
      ground (arith, send_all_done (row ∷ rows) w, send_all-rows (row ∷ rows) w)

  published_none :
      (pass : Pass) (w : World S) → waiting w.rows ≡ 0 → waiting (publish cfg pass [] w).1.rows ≡ 0
  unfolding publish
  published_none pass w none_left = none_left

  -- What is left: less than before, or nothing.
  abbrev Less : ℕ → ℕ → Type 0
  Less after before = (after + 1 ≤ before) ⊎ ((after ≡ 0) × (before ≡ 0))

  publish-Less :
      (pass : Pass) (batch : List Row) (w : World S)
      → IsHealthy pass
      → 1 ≤ cfg.batch_size
      → batch_of cfg pass w ≡ batch
      → Less (waiting (publish cfg pass batch w).1.rows) (waiting w.rows)
  publish-Less pass [] w healthy some_size eq =
      let none_left =
        sym (
          length-order_rows (pending pass.locked w.rows)
          ∙ length-pending pass.locked w.rows healthy.free)
        ∙ taken_some cfg.batch_size (order_rows (pending pass.locked w.rows)) some_size eq in
      inr (published_none pass w none_left, none_left)
  publish-Less pass (row ∷ rows) w healthy some_size eq =
      let in_batch : Memᴰ row (row ∷ rows) = Memᴰ.head refl in
      let (in_rows, waits) =
        batch-mem cfg.batch_size pass.locked row w.rows (subst (Memᴰ row) (sym eq) in_batch) in
      inl (
        subst (λ left. waiting left + 1 ≤ waiting w.rows)
          (sym (publish-rows pass row rows w healthy.commits))
          (mark-waiting_less pass.now (row ∷ rows) w.rows row in_rows waits
            (mem-has_id row (row ∷ rows) in_batch)))

  drain_once-Less :
      (pass : Pass) (w : World S)
      → IsHealthy pass
      → 1 ≤ cfg.batch_size
      → Less (waiting (drain_once cfg pass w).1.rows) (waiting w.rows)
  unfolding drain_once
  drain_once-Less pass w healthy some_size =
      publish-Less pass (batch_of cfg pass w) w healthy some_size refl

  -- When the broker confirms every send and a batch holds at least one row: as many drains that meet
  -- no lock and commit as rows wait leave no row waiting.
  pub run_drains :
      (passes : List Pass) (w : World S)
      → 1 ≤ cfg.batch_size
      → All IsHealthy passes
      → waiting w.rows ≤ length passes
      → waiting (run cfg (map drains passes) w).rows ≡ 0
  unfolding run
  run_drains [] w some_size healthy enough = omega (arith, enough)
  run_drains (pass ∷ passes) w some_size (now, later) enough =
      run_drains passes (drain_once cfg pass w).1 some_size later
        (elim (drain_once-Less pass w now some_size) [
          | inl less ↦ omega (arith, less, enough)
          | inr (none_left, _) ↦ omega (arith, none_left)
        ])
