-- ===== src/Http.antt =====
-- The parts of net/http that the handlers of the ingest API read and write, and the state that they
-- share: the Redis store and what has been handed to the Kafka producer.
use quantumbilling.Common.{ℕ, List, Text, text}
use quantumbilling.Platform.Redis.{Redis}

pub record Request : Type 0 where
  pub method : Text
  -- the headers X-API-Key and Content-Type, empty if they are missing
  pub api_key : Text
  pub content_type : Text
  pub body : Text

-- The replies of the ingest API: the error envelope of `writeError` and `writeAuthError`, and the
-- two envelopes of an accepted request.
pub data Response : Type 0 where
  error : ℕ → Text → Text → Response
  event_accepted : Text → Response
  batch_accepted : ℕ → ℕ → Response

-- One call of the publish function: the messages and the partition key.
pub record Publication : Type 0 where
  pub messages : List Text
  pub partition_key : Text

pub record World (redis : Redis) : Type 0 where
  pub store : redis.Store
  pub published : List Publication

abbrev pub post : Text
post = text "POST"
