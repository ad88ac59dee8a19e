-- ===== src/Samples.antt =====
-- Concrete data for the tests and the witnesses: an event, a key, a codec and servers.
pub mod Codec
use quantumbilling.Common.{
  List, [], ◌∷◌, ◌++◌, Text, text, text_eq, true, false, Option, none, some, if◌then◌else◌,
}
use quantumbilling.Common.Int.{pos}
use quantumbilling.Common.Float.{finite}
use quantumbilling.Models.{
  UsageEvent, KeyContext, Fresh, source_mode_direct_ingest, key_status_active,
}
use quantumbilling.Models.Codec.{Json}
use quantumbilling.Platform.Redis.Memory.{Memory, memory}
use quantumbilling.Platform.Postgres.{absent}
use quantumbilling.Http.{Request, World, post}
use quantumbilling.Ingest.{IngestHandler}

abbrev pub event : UsageEvent
event = record {
  event_id = text "e1";
  org_id = text "spoofed";
  customer_id = text "c0";
  end_user_id = [];
  session_id = [];
  source_mode = [];
  key_id = [];
  event_type = text "chat.completion";
  model = text "gpt-4";
  input_tokens = pos 10;
  output_tokens = pos 5;
  thinking_tokens = pos 0;
  total_tokens = finite false 15 (pos 0);
  unit = [];
  latency = [];
  cost = text "0.01";
  status = [];
  service = [];
  timestamp_ms = pos 7;
  metadata = [];
}

abbrev pub key_context : KeyContext
key_context = record {
  key_id = text "k1";
  org_id = text "o1";
  customer_id = text "c1";
  source_mode = source_mode_direct_ingest;
  status = key_status_active;
}

abbrev pub fresh : Fresh
fresh = record { random = none; nanos = 42; now_ms = pos 9 }

abbrev pub later : Fresh
later = record { random = none; nanos = 77; now_ms = pos 99 }

-- A codec that knows two bodies, and encodes every event alike.
abbrev pub json : Json
json = record {
  unmarshal_event = λ body. if text_eq body (text "{e1}") then some event else none;
  unmarshal_wrapped =
      λ body. if text_eq body (text "[e1]") then some (event ∷ event ∷ []) else none;
  unmarshal_bare = λ body. none;
  unmarshal_key_context = λ val. if text_eq val (text "{k1}") then some key_context else none;
  marshal_event = λ e. some (text "{...}");
  marshal_map = λ m. [];
}

abbrev pub request : Text → Request
request body = record { method = post; api_key = text "sk-live-1"; content_type = []; body = body }

-- The key and its organization are cached.
abbrev pub strings : List (Text × Text)
strings = (text "apikey:sk-live-1", text "{k1}") ∷ (text "org:o1", text "1") ∷ []

abbrev pub server : Memory
server = record { strings = strings; filters = []; up = true; stack = true }

abbrev pub empty_server : Memory
empty_server = record { strings = []; filters = []; up = true; stack = true }

abbrev pub world : Memory → World memory
world s = record { store = s; published = [] }

abbrev pub handler : IngestHandler
handler = record {
  pg = absent;
  publish = true;
  pub_batch = true;
  idempotency_ttl = 86400;
  max_batch_size = 50000;
  bloom_num_shards = 16;
}

-- A reading of identifiers in which all texts but one are uuids in canonical form.
abbrev pub read_id : Text → Option Text
read_id t = if text_eq t (text "no uuid") then none else some t
