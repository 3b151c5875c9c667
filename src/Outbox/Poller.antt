-- ===== src/Outbox/Poller.antt =====
-- `stage_event` of libs/smartfood-outbox/smartfood_outbox/table.py, and `drain_once` and `run` of
-- libs/smartfood-outbox/smartfood_outbox/poller.py.
use smart_food_ops.Prelude.{
  ℕ, Bool, true, false, ◌&&◌, ◌||◌, not, Option, none, some, List, [], ◌∷◌, ◌++◌, take, length, ltb,
  leb, nat_beq, if◌then◌else◌,
}
use smart_food_ops.Outbox.Rows.{Row, Sent, record_of, World, has_id}

abbrev pub is_pending : Row → Bool
is_pending row = elim row.published_at [ none ↦ true | some _ ↦ false ]

-- The caller's insert; the id is random, and a taken one is an integrity error.
unfoldable pub stage_event : {S : Type 0} → Row → World S → World S
stage_event row w =
    if has_id row.id w.rows
    then w
    else record w { rows = w.rows ++ record row { published_at = none } ∷ [] }

-- ORDER BY occurred_at, id
abbrev pub is_before : Row → Row → Bool
is_before a b =
    ltb a.occurred_at b.occurred_at || (nat_beq a.occurred_at b.occurred_at && leb a.id b.id)

unfoldable pub insert_row : Row → List Row → List Row
insert_row row [] = row ∷ []
insert_row row (first ∷ rest) =
    if is_before row first then row ∷ first ∷ rest else first ∷ insert_row row rest

unfoldable pub order_rows : List Row → List Row
order_rows [] = []
order_rows (row ∷ rows) = insert_row row (order_rows rows)

-- WHERE published_at IS NULL, less the rows that another poller has locked.
unfoldable pub pending : (ℕ → Bool) → List Row → List Row
pending locked [] = []
pending locked (row ∷ rows) =
    let rest = pending locked rows in
    if is_pending row && not (locked row.id) then row ∷ rest else rest

-- UPDATE … SET published_at = :now WHERE id IN (…)
abbrev pub marked_row : ℕ → List Row → Row → Row
marked_row now batch row =
    if has_id row.id batch then record row { published_at = some now } else row

unfoldable pub mark : ℕ → List Row → List Row → List Row
mark now batch [] = []
mark now batch (row ∷ rows) = marked_row now batch row ∷ mark now batch rows

-- The settings; the send, which may raise; and what this drain meets: the time, the rows that others
-- have locked, and whether the transaction commits.
pub record Config (S : Type 0) : Type 0 where
  pub own_cell : ℕ
  pub batch_size : ℕ
  pub send : Sent → S → Bool × S

pub record Pass : Type 0 where
  pub now : ℕ
  pub locked : ℕ → Bool
  pub commits : Bool

module _ {S : Type 0} (cfg : Config S) where
  -- The sends in order; false is a send that raised, and the sends before it stand.
  unfoldable pub send_all : List Row → World S → Bool × World S
  send_all [] w = (true, w)
  send_all (row ∷ rows) w =
      let (confirmed, broker) = cfg.send (record_of cfg.own_cell row) w.broker in
      let later =
        send_all rows
          (record w { broker = broker; sent = w.sent ++ record_of cfg.own_cell row ∷ [] }) in
      if confirmed then later else (false, record w { broker = broker })

  abbrev pub batch_of : Pass → World S → List Row
  batch_of pass w = take cfg.batch_size (order_rows (pending pass.locked w.rows))

  -- The mark and its commit, after every send was confirmed.
  abbrev pub marked : Pass → List Row → World S → Option ℕ × World S
  marked pass batch w =
      if pass.commits
      then (some (length batch), record w { rows = mark pass.now batch w.rows })
      else (none, w)

  unfoldable pub publish : Pass → List Row → World S → Option ℕ × World S
  publish pass [] w = (some 0, w)
  publish pass (row ∷ rows) w =
      let (confirmed, w') = send_all (row ∷ rows) w in
      if confirmed then marked pass (row ∷ rows) w' else (none, w')

  -- The answer is how many were published; `none` is an exception.
  unfoldable pub drain_once : Pass → World S → Option ℕ × World S
  drain_once pass w = publish pass (batch_of pass w) w

-- What happens to an outbox: a caller stages an event, or the poller drains.
pub data Event : Type 0 where
  stages : Row → Event
  drains : Pass → Event

-- `run`: a drain that fails ends nothing.
unfoldable pub run : {S : Type 0} → Config S → List Event → World S → World S
run cfg [] w = w
run cfg (stages row ∷ events) w = run cfg events (stage_event row w)
run cfg (drains pass ∷ events) w = run cfg events (drain_once cfg pass w).1
