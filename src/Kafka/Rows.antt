-- ===== src/Kafka/Rows.antt =====
-- What a session of libs/smartfood-kafka/smartfood_kafka/consumer.py reads and leaves. The broker, the
-- decoder, the handler and the dead letter topic are peers with a state of any type.
use smart_food_ops.Prelude.{ℕ, Bool, Option, List, [], ◌∷◌, ◌++◌, map}

-- A header by its name; those that a parked message gains are the consumer's own.
pub data Header : Type 0 where
  source_header : ℕ → ℕ → Header
  dlq_error : ℕ → Header
  dlq_source_topic : ℕ → Header
  dlq_source_partition : ℕ → Header
  dlq_source_offset : ℕ → Header
  dlq_attempts : ℕ → Header
  dlq_failed_at : ℕ → Header

pub record Message : Type 0 where
  pub topic : ℕ
  pub partition : ℕ
  pub offset : ℕ
  pub key : Option ℕ
  pub value : ℕ
  pub headers : List Header

pub data Decoded (Event : Type 0) : Type 0 where
  event : Event → Decoded Event
  serde_error : ℕ → Decoded Event
  decoder_down : Decoded Event

-- What became of a message: the handler returned, or it was parked after so many attempts with an
-- error.
pub data Fate : Type 0 where
  handled : Message → Fate
  parked : Message → ℕ → ℕ → Fate

abbrev pub source : Fate → Message
source (handled message) = message
source (parked message _ _) = message

-- The record that `_park` sends to `<source-topic>.dlq`.
pub record DlqRecord : Type 0 where
  pub source_topic : ℕ
  pub dlq_key : Option ℕ
  pub dlq_value : ℕ
  pub dlq_headers : List Header

abbrev pub dlq_record : Message → ℕ → ℕ → ℕ → DlqRecord
dlq_record message error attempts now = record {
  source_topic = message.topic;
  dlq_key = message.key;
  dlq_value = message.value;
  dlq_headers =
      message.headers
      ++ dlq_error error
        ∷ dlq_source_topic message.topic
        ∷ dlq_source_partition message.partition
        ∷ dlq_source_offset message.offset
        ∷ dlq_attempts attempts
        ∷ dlq_failed_at now
        ∷ [];
}

-- `none` is a handler that returned, `some` the exception that it raised; false is an exception.
pub record Peers (S Event : Type 0) : Type 0 where
  pub decode : ℕ → S → Decoded Event × S
  pub handle : Event → S → Option ℕ × S
  pub handle_batch : List Event → S → Option ℕ × S
  pub send_and_wait : DlqRecord → S → Bool × S
  pub commit : S → Bool × S
  pub clock : S → ℕ

pub record Config : Type 0 where
  pub max_attempts : ℕ
  pub backoff : ℕ

-- The peers' state, the fates in order, the messages before the committed offset, the calls of the
-- handler and the time spent in the backoff.
pub record World (S : Type 0) : Type 0 where
  pub peers : S
  pub fates : List Fate
  pub committed : ℕ
  pub calls : ℕ
  pub slept : ℕ

abbrev pub sources : {S : Type 0} → World S → List Message
sources w = map source w.fates
