-- ===== src/Kafka.antt =====
-- engine/internal/kafka/producer.go: the producer that the ingest API hands its publish functions
-- from. It is a placeholder: it logs what it is given.
use quantumbilling.Common.{ℕ, List, [], ◌∷◌, ◌++◌, Text, text, Option, none, length}

pub record ProducerConfig : Type 0 where
  pub brokers : List Text
  pub topic : Text
  pub batch_size : ℕ
  pub batch_timeout_ms : ℕ

unfoldable pub default_producer_config : ProducerConfig
default_producer_config = record {
  brokers = text "localhost:9092" ∷ [];
  topic = text "usage-events";
  batch_size = 1000;
  batch_timeout_ms = 1000;
}

pub record Producer : Type 0 where
  pub brokers : List Text
  pub topic : Text

unfoldable pub new_producer : ProducerConfig → Producer
new_producer cfg = record { brokers = cfg.brokers; topic = cfg.topic }

-- What a call writes to the log: its size is the bytes of a message or the number of messages.
pub data LogLine : Type 0 where
  published_event : (org_id topic : Text) (msg_bytes : ℕ) → LogLine
  published_batch : (org_id topic : Text) (batch_size : ℕ) → LogLine

-- An error, if there is one, and the log.
abbrev pub Published : Type 0
Published = Option Text × List LogLine

unfoldable pub publish_event : Producer → Text → Text → List LogLine → Published
publish_event p msg_bytes org_id log =
    (none, log ++ published_event org_id p.topic (length msg_bytes) ∷ [])

unfoldable pub publish_batch : Producer → List Text → Text → List LogLine → Published
publish_batch p events org_id log =
    (none, log ++ published_batch org_id p.topic (length events) ∷ [])

-- `PublishFunc` and `BatchPublishFunc`
abbrev pub PublishFunc : Type 0
PublishFunc = Text → Text → List LogLine → Published

abbrev pub BatchPublishFunc : Type 0
BatchPublishFunc = List Text → Text → List LogLine → Published

unfoldable pub wrap_producer : Producer → PublishFunc × BatchPublishFunc
wrap_producer p = (publish_event p, publish_batch p)

-- `%v` of a slice of strings
join_words : List Text → Text
join_words [] = []
join_words (b ∷ []) = b
join_words (b ∷ c ∷ bs) = b ++ (b' ' ∷ join_words (c ∷ bs))

-- `String`
unfoldable pub to_string : Producer → Text
unfolding join_words
to_string p =
    text "KafkaProducer{topic="
    ++ (p.topic ++ (text ", brokers=[" ++ (join_words p.brokers ++ text "]}")))
