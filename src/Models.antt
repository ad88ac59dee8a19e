-- ===== src/Models.antt =====
-- engine/internal/models/models.go: the usage event, the key context, validation, enrichment and
-- the parsing of a batch.
pub mod Codec
pub mod EventId
pub mod Laws
use quantumbilling.Common.{
  ℕ, ◌*◌, List, [], ◌∷◌, Text, text, text_eq, is_empty, Bool, true, false, ◌||◌, Option, none, some,
  if◌then◌else◌,
}
use quantumbilling.Models.EventId.{new_event_id}
use quantumbilling.Common.Int.{ℤ, pos, is_neg, is_zero}
use quantumbilling.Common.Float.{Float64, lt_zero}

abbrev pub source_mode_direct_ingest : Text
source_mode_direct_ingest = text "direct_ingest"

abbrev pub source_mode_virtual_key : Text
source_mode_virtual_key = text "virtual_key"

abbrev pub source_mode_byok : Text
source_mode_byok = text "byok"

abbrev pub key_status_active : Text
key_status_active = text "active"

abbrev pub key_status_revoked : Text
key_status_revoked = text "revoked"

abbrev pub key_status_expired : Text
key_status_expired = text "expired"

-- in seconds
abbrev pub default_idempotency_ttl : ℕ
default_idempotency_ttl = 24 * 3600

abbrev pub default_max_batch_size : ℕ
default_max_batch_size = 50000

-- in bytes
abbrev pub default_max_body_size : ℕ
default_max_body_size = 1048576

abbrev pub default_max_batch_body_size : ℕ
default_max_batch_body_size = 500 * 1048576

pub record UsageEvent : Type 0 where
  pub event_id : Text
  pub org_id : Text
  pub customer_id : Text
  pub end_user_id : Text
  pub session_id : Text
  pub source_mode : Text
  pub key_id : Text
  pub event_type : Text
  pub model : Text
  pub input_tokens : ℤ
  pub output_tokens : ℤ
  pub thinking_tokens : ℤ
  pub total_tokens : Float64
  pub unit : Text
  pub latency : Text
  pub cost : Text
  pub status : Text
  pub service : Text
  pub timestamp_ms : ℤ
  pub metadata : List (Text × Text)

-- `Validate`: the first error, or none.
unfoldable pub validate : UsageEvent → Option Text
validate e =
    if is_empty e.event_type
    then some (text "event_type is required")
    else if is_empty e.model
    then some (text "model is required")
    else if is_neg e.input_tokens
    then some (text "input_tokens must be >= 0")
    else if is_neg e.output_tokens
    then some (text "output_tokens must be >= 0")
    else if is_neg e.thinking_tokens
    then some (text "thinking_tokens must be >= 0")
    else if lt_zero e.total_tokens
    then some (text "total_tokens must be >= 0")
    else none

pub record KeyContext : Type 0 where
  pub key_id : Text
  pub org_id : Text
  pub customer_id : Text
  pub source_mode : Text
  pub status : Text

unfoldable pub is_active : KeyContext → Bool
is_active kc = text_eq kc.status key_status_active

unfoldable pub is_proxy_mode : KeyContext → Bool
is_proxy_mode kc =
    text_eq kc.source_mode source_mode_virtual_key || text_eq kc.source_mode source_mode_byok

-- What a call of `EnrichFromKeyContext` draws from outside: crypto/rand and the clock.
pub record Fresh : Type 0 where
  pub random : Option (List ℕ)
  pub nanos : ℕ
  pub now_ms : ℤ

-- `EnrichFromKeyContext`
unfoldable pub enrich : KeyContext → Fresh → UsageEvent → UsageEvent
enrich kc fresh e = record e {
  org_id = kc.org_id;
  customer_id = if is_empty kc.customer_id then e.customer_id else kc.customer_id;
  source_mode = kc.source_mode;
  key_id = kc.key_id;
  event_id = if is_empty e.event_id then new_event_id fresh.random fresh.nanos else e.event_id;
  timestamp_ms = if is_zero e.timestamp_ms then fresh.now_ms else e.timestamp_ms;
}
