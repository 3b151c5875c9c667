-- ===== src/Outbox/History.antt =====
-- Any history of an outbox: what its callers stage and its poller drains.
use mathlib.Core.List.{Memᴰ}
use mathlib.Core.List.Memᴰ
use smart_food_ops.Prelude.{
  ℕ, ◌≡◌, sym, ap, ◌∙◌, false, none, List, [], ◌∷◌, ◌++◌, arith, Bool-cases, inl, inr,
}
use smart_food_ops.Outbox.Rows.{Row, record_of, World, has_id}
use smart_food_ops.Outbox.Poller.{
  Config, Event, stages, drains, is_pending, stage_event, drain_once, run,
}
use smart_food_ops.Outbox.Select.{mem-has_id}
use smart_food_ops.Outbox.Sound.{IsSound, drain_once-IsSound}

module _ {S : Type 0} (cell_id : ℕ) where
  staged-IsSound :
      (row : Row) (w : World S)
      → IsSound cell_id w
      → has_id row.id w.rows ≡ false
      → IsSound cell_id (record w { rows = w.rows ++ record row { published_at = none } ∷ [] })
  staged-IsSound row w sound fresh = record {
    keyed = λ r r' m m' same. elim (Memᴰ.append_cases w.rows m) [
      | inl old ↦ elim (Memᴰ.append_cases w.rows m') [
        | inl old' ↦ sound.keyed r r' old old' same
        | inr new' ↦ clash r r' old (Memᴰ.eq_of_singleton new') same
      ]
      | inr new ↦ elim (Memᴰ.append_cases w.rows m') [
        | inl old' ↦ sym (clash r' r old' (Memᴰ.eq_of_singleton new) (sym same))
        | inr new' ↦ Memᴰ.eq_of_singleton new ∙ sym (Memᴰ.eq_of_singleton new')
      ]
    ];
    confirmed = λ r m published. elim (Memᴰ.append_cases w.rows m) [
      | inl old ↦ sound.confirmed r old published
      | inr new ↦ pending_new r (Memᴰ.eq_of_singleton new) published
    ];
  }
    where
      clash :
          (r r' : Row)
          → Memᴰ r w.rows
          → r' ≡ record row { published_at = none }
          → r.id ≡ r'.id
          → r ≡ r'
      clash r r' old new same =
          ground (arith, mem-has_id r w.rows old, fresh, ap (λ (x : Row). x.id) new)

      pending_new :
          (r : Row)
          → r ≡ record row { published_at = none }
          → is_pending r ≡ false
          → Memᴰ (record_of cell_id r) w.sent
      pending_new r new published = let wrong = sym (ap is_pending new) ∙ published in cc

  stage_event-IsSound :
      (row : Row) (w : World S) → IsSound cell_id w → IsSound cell_id (stage_event row w)
  unfolding stage_event
  stage_event-IsSound row w sound = elim (Bool-cases (has_id row.id w.rows)) [
    | inl taken ↦ rw taken sound
    | inr fresh ↦ rw fresh (staged-IsSound row w sound fresh)
  ]

-- Over any history of an outbox, with every drain meeting a broker that may refuse any send, a
-- transaction that may fail to commit and rows that other pollers hold: the ids stay a key, and a
-- row is marked published only when the broker has confirmed its record.
pub run-IsSound :
    {S : Type 0} (cfg : Config S) (events : List Event) (w : World S)
    → IsSound cfg.own_cell w
    → IsSound cfg.own_cell (run cfg events w)
unfolding run
run-IsSound cfg [] w sound = sound
run-IsSound cfg (stages row ∷ events) w sound =
    run-IsSound cfg events (stage_event row w) (stage_event-IsSound cfg.own_cell row w sound)
run-IsSound cfg (drains pass ∷ events) w sound =
    run-IsSound cfg events (drain_once cfg pass w).1 (drain_once-IsSound cfg pass w sound)
