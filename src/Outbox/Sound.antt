-- ===== src/Outbox/Sound.antt =====
-- Nothing is marked published that was not sent: `drain_once` and `run` of
-- libs/smartfood-outbox/smartfood_outbox/poller.py.
use mathlib.Core.List.{Memᴰ}
use mathlib.Core.List.Memᴰ
use smart_food_ops.Prelude.{
  ℕ, ◌≡◌, refl, sym, ap, ◌∙◌, subst, Bool, true, false, none, List, [], ◌∷◌, ◌++◌, arith,
  if◌then◌else◌, Bool-cases, inl, inr,
}
use smart_food_ops.Outbox.Rows.{Row, Sent, record_of, World, has_id}
use smart_food_ops.Outbox.Poller.{
  Config, Pass, is_pending, marked_row, mark, send_all, batch_of, marked, publish, drain_once,
}
use smart_food_ops.Outbox.Select.{batch-mem, has_id-mem, mark-mem}

-- The ids are a key, and the record of every published row was confirmed by the broker.
pub record IsSound {S : Type 0} (cell_id : ℕ) (w : World S) : Type 0 where
  pub keyed : (r r' : Row) → Memᴰ r w.rows → Memᴰ r' w.rows → r.id ≡ r'.id → r ≡ r'
  pub confirmed :
      (r : Row) → Memᴰ r w.rows → is_pending r ≡ false → Memᴰ (record_of cell_id r) w.sent

-- The rows stay, no send is forgotten, and when all was confirmed each record is among the sends.
pub record Sends {S : Type 0} (cell_id : ℕ) (batch : List Row) (w : World S) (done : Bool)
    (w' : World S) : Type 0 where
  pub same : w'.rows ≡ w.rows
  pub kept : (s : Sent) → Memᴰ s w.sent → Memᴰ s w'.sent
  pub all : done ≡ true → (r : Row) → Memᴰ r batch → Memᴰ (record_of cell_id r) w'.sent

module _ {S : Type 0} (cfg : Config S) where
  module _ (row : Row) (rows : List Row) (w : World S) where
    abbrev after_send : World S
    after_send = record w {
      broker = (cfg.send (record_of cfg.own_cell row) w.broker).1;
      sent = w.sent ++ record_of cfg.own_cell row ∷ [];
    }

    send_confirmed :
        (cfg.send (record_of cfg.own_cell row) w.broker).0 ≡ true
        → send_all cfg (row ∷ rows) w ≡ send_all cfg rows after_send
    unfolding send_all
    send_confirmed ok = ground (arith, ok)

    send_raised :
        (cfg.send (record_of cfg.own_cell row) w.broker).0 ≡ false
        → send_all cfg (row ∷ rows) w ≡ (false, record after_send { sent = w.sent })
    unfolding send_all
    send_raised raised = ground (arith, raised)

    send-Sends :
        (done : Bool) (w' : World S)
        → Sends cfg.own_cell rows after_send done w'
        → Sends cfg.own_cell (row ∷ rows) w done w'
    send-Sends done w' s = record {
      same = s.same;
      kept = λ x m. s.kept x (Memᴰ.append_left (record_of cfg.own_cell row ∷ []) m);
      all = λ q r m. elim (Memᴰ.cases_cons m) [
        | inl eq ↦
            s.kept (record_of cfg.own_cell r)
              (Memᴰ.append_right w.sent (Memᴰ.head (ap (record_of cfg.own_cell) eq)))
        | inr later ↦ s.all q r later
      ];
    }

  send_all-Sends :
      (batch : List Row) (w : World S)
      → let (done, w') = send_all cfg batch w in Sends cfg.own_cell batch w done w'
  unfolding send_all
  send_all-Sends [] w = record { same = refl; kept = λ s m. m; all = λ q r m. elim m [ ] }
  send_all-Sends (row ∷ rows) w =
      elim (Bool-cases (cfg.send (record_of cfg.own_cell row) w.broker).0) [
        | inl ok ↦
            subst (λ r. Sends cfg.own_cell (row ∷ rows) w r.0 r.1)
              (sym (send_confirmed row rows w ok))
              (send-Sends row rows w (send_all cfg rows (after_send row rows w)).0
                (send_all cfg rows (after_send row rows w)).1
                (send_all-Sends rows (after_send row rows w)))
        | inr raised ↦
            subst (λ r. Sends cfg.own_cell (row ∷ rows) w r.0 r.1)
              (sym (send_raised row rows w raised))
              (record { same = refl; kept = λ s m. m; all = λ q. cc })
      ]

  sent-IsSound :
      (batch : List Row) (w : World S) (done : Bool) (w' : World S)
      → Sends cfg.own_cell batch w done w'
      → IsSound cfg.own_cell w
      → IsSound cfg.own_cell w'
  sent-IsSound batch w done w' s sound = record {
    keyed =
        subst (λ rows. (r r' : Row) → Memᴰ r rows → Memᴰ r' rows → r.id ≡ r'.id → r ≡ r')
          (sym s.same) sound.keyed;
    confirmed = λ r m published.
        s.kept (record_of cfg.own_cell r) (sound.confirmed r (subst (Memᴰ r) s.same m) published);
  }

  marked_row-id : (now : ℕ) (batch : List Row) (row : Row) → (marked_row now batch row).id ≡ row.id
  marked_row-id now batch row = ground arith

  marked_row-record :
      (now : ℕ) (batch : List Row) (row : Row)
      → record_of cfg.own_cell (marked_row now batch row) ≡ record_of cfg.own_cell row
  marked_row-record now batch row = ground arith

  marked_row_left :
      (now : ℕ) (batch : List Row) (row : Row)
      → has_id row.id batch ≡ false
      → marked_row now batch row ≡ row
  marked_row_left now batch row other = ground arith

  -- A row that the marked table has as published was sent: with the batch, or before.
  mark-confirmed :
      (now : ℕ) (batch : List Row) (w : World S)
      → IsSound cfg.own_cell w
      → ((r : Row) → Memᴰ r batch → Memᴰ r w.rows × Memᴰ (record_of cfg.own_cell r) w.sent)
      → (old : Row) → Memᴰ old w.rows
      → is_pending (marked_row now batch old) ≡ false
      → Memᴰ (record_of cfg.own_cell old) w.sent
  mark-confirmed now batch w sound sent old m published = elim (Bool-cases (has_id old.id batch)) [
    | inl listed ↦
        let (r, found, same) = has_id-mem old.id batch listed in
        let (in_rows, in_sent) = sent r found in
        subst (λ (x : Row). Memᴰ (record_of cfg.own_cell x) w.sent)
          (sound.keyed r old in_rows m same) in_sent
    | inr other ↦
        sound.confirmed old m
          (sym (ap is_pending (marked_row_left now batch old other)) ∙ published)
  ]

  mark-IsSound :
      (now : ℕ) (batch : List Row) (w : World S)
      → IsSound cfg.own_cell w
      → ((r : Row) → Memᴰ r batch → Memᴰ r w.rows × Memᴰ (record_of cfg.own_cell r) w.sent)
      → IsSound cfg.own_cell (record w { rows = mark now batch w.rows })
  mark-IsSound now batch w sound sent = record {
    keyed = λ r r' m m' same.
        let (old, found, eq) = mark-mem now batch w.rows r m in
        let (old', found', eq') = mark-mem now batch w.rows r' m' in
        let ids =
          sym (ap (λ (x : Row). x.id) eq ∙ marked_row-id now batch old)
          ∙ same
          ∙ (ap (λ (x : Row). x.id) eq' ∙ marked_row-id now batch old') in
        eq ∙ ap (marked_row now batch) (sound.keyed old old' found found' ids) ∙ sym eq';
    confirmed = λ r m published.
        let (old, found, eq) = mark-mem now batch w.rows r m in
        subst (λ s. Memᴰ s w.sent)
          (sym (ap (record_of cfg.own_cell) eq ∙ marked_row-record now batch old))
          (mark-confirmed now batch w sound sent old found (sym (ap is_pending eq) ∙ published));
  }

  marked-IsSound :
      (pass : Pass) (batch : List Row) (w : World S)
      → IsSound cfg.own_cell w
      → ((r : Row) → Memᴰ r batch → Memᴰ r w.rows × Memᴰ (record_of cfg.own_cell r) w.sent)
      → IsSound cfg.own_cell (marked cfg pass batch w).1
  marked-IsSound pass batch w sound sent = elim (Bool-cases pass.commits) [
    | inl commits ↦
        subst
          (λ (b : Bool). IsSound cfg.own_cell (marked cfg (record pass { commits = b }) batch w).1)
          (sym commits) (mark-IsSound pass.now batch w sound sent)
    | inr fails ↦
        subst
          (λ (b : Bool). IsSound cfg.own_cell (marked cfg (record pass { commits = b }) batch w).1)
          (sym fails) sound
  ]

  publish-IsSound :
      (pass : Pass) (batch : List Row) (w : World S)
      → IsSound cfg.own_cell w
      → ((r : Row) → Memᴰ r batch → Memᴰ r w.rows)
      → IsSound cfg.own_cell (publish cfg pass batch w).1
  unfolding publish
  publish-IsSound pass [] w sound listed = sound
  publish-IsSound pass (row ∷ rows) w sound listed =
      let (done, w') = send_all cfg (row ∷ rows) w in
      let s = send_all-Sends (row ∷ rows) w in
      let sound' = sent-IsSound (row ∷ rows) w done w' s sound in
      elim (Bool-cases done) [
        | inr raised ↦
            subst
              (λ (b : Bool).
                IsSound cfg.own_cell (if b then marked cfg pass (row ∷ rows) w' else (none, w')).1)
              (sym raised) sound'
        | inl ok ↦
            subst
              (λ (b : Bool).
                IsSound cfg.own_cell (if b then marked cfg pass (row ∷ rows) w' else (none, w')).1)
              (sym ok)
              (marked-IsSound pass (row ∷ rows) w' sound'
                (λ r m. (subst (Memᴰ r) (sym s.same) (listed r m), s.all ok r m)))
      ]

  pub drain_once-IsSound :
      (pass : Pass) (w : World S)
      → IsSound cfg.own_cell w
      → IsSound cfg.own_cell (drain_once cfg pass w).1
  unfolding drain_once
  drain_once-IsSound pass w sound =
      publish-IsSound pass (batch_of cfg pass w) w sound
        (λ r m. (batch-mem cfg.batch_size pass.locked r w.rows m).0)
