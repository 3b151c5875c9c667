-- ===== src/Outbox/Rows.antt =====
-- The outbox table of libs/smartfood-outbox/smartfood_outbox/table.py, and what the poller sends.
use smart_food_ops.Prelude.{ℕ, Bool, false, ◌||◌, Option, List, [], ◌∷◌, nat_beq}

pub record Row : Type 0 where
  pub id : ℕ
  pub aggregate_type : ℕ
  pub aggregate_id : ℕ
  pub event_type : ℕ
  pub payload : ℕ
  pub occurred_at : ℕ
  pub published_at : Option ℕ
  pub traceparent : Option ℕ

-- `_record`, with the key and the trace header of the send.
pub record Sent : Type 0 where
  pub key : ℕ
  pub event_id : ℕ
  pub sent_type : ℕ
  pub sent_aggregate_type : ℕ
  pub sent_aggregate_id : ℕ
  pub sent_at : ℕ
  pub cell_id : ℕ
  pub sent_payload : ℕ
  pub trace_header : Option ℕ

abbrev pub record_of : ℕ → Row → Sent
record_of cell_id row = record {
  key = row.aggregate_id;
  event_id = row.id;
  sent_type = row.event_type;
  sent_aggregate_type = row.aggregate_type;
  sent_aggregate_id = row.aggregate_id;
  sent_at = row.occurred_at;
  cell_id = cell_id;
  sent_payload = row.payload;
  trace_header = row.traceparent;
}

-- The table, what the broker confirmed in order, and the broker's own state.
pub record World (S : Type 0) : Type 0 where
  pub rows : List Row
  pub sent : List Sent
  pub broker : S

unfoldable pub has_id : ℕ → List Row → Bool
has_id id [] = false
has_id id (row ∷ rows) = nat_beq row.id id || has_id id rows
