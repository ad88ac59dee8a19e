-- ===== src/Consumer.antt =====
-- engine/internal/consumer/consumer.go: the worker's side of the topic. The reader is a placeholder
-- that has no messages; what it is to do with a message is there.
use quantumbilling.Common.{ℕ, List, [], ◌∷◌, Text, text, Option, none}
use quantumbilling.Models.{UsageEvent}
use quantumbilling.Models.Codec.{Json}
use quantumbilling.Settings.{Os, env_or_default}
use quantumbilling.Tracing.{TraceContext, parse_trace_parent}

pub record ConsumerConfig : Type 0 where
  pub brokers : List Text
  pub topic : Text
  pub group_id : Text
  pub min_bytes : ℕ
  pub max_bytes : ℕ
  pub max_wait_ms : ℕ

unfoldable pub default_consumer_config : ConsumerConfig
default_consumer_config = record {
  brokers = text "localhost:9092" ∷ [];
  topic = text "usage-events";
  group_id = text "analytics-v1";
  min_bytes = 10000;
  max_bytes = 10000000;
  max_wait_ms = 2000;
}

pub record Consumer : Type 0 where
  pub brokers : List Text
  pub topic : Text
  pub group_id : Text

unfoldable pub new_consumer : ConsumerConfig → Consumer
new_consumer cfg = record { brokers = cfg.brokers; topic = cfg.topic; group_id = cfg.group_id }

-- `ConsumeBatch`, with its error. It only logs its settings.
unfoldable pub consume_batch : Consumer → ℕ → ℕ → List UsageEvent × Option Text
consume_batch c batch_size timeout_ms = ([], none)

-- `CommitMessages`, which only logs
unfoldable pub commit_messages : Consumer → List UsageEvent → Option Text
commit_messages c es = none

unfoldable pub lag : Consumer → ℕ
lag c = 0

-- `DeserializeEvent`, where none is its error
unfoldable pub deserialize_event : Json → Text → Option UsageEvent
deserialize_event json value = json.unmarshal_event value

unfoldable pub parse_trace_parent_from_msg : Text → Option TraceContext
unfolding parse_trace_parent
parse_trace_parent_from_msg traceparent = parse_trace_parent traceparent

-- `groupID` and `topic`
unfoldable pub group_id : Os → Text
unfolding env_or_default
group_id os = env_or_default os (text "KAFKA_GROUP_ID") (text "analytics-v1")

unfoldable pub topic : Os → Text
unfolding env_or_default
topic os = env_or_default os (text "KAFKA_TOPIC") (text "usage-events")
