-- ===== src/Models/Codec.antt =====
-- `encoding/json` as the engine uses it, an interface: the decoders into the engine's structs and
-- the encoders of an event and of a map of strings; and ParseIngestBatch of
-- engine/internal/models/models.go.
use quantumbilling.Common.{
  List, [], ◌∷◌, Text, text, text_eq, is_ascii, Option, none, some, ◌≡◌, ◌≢◌, ◌⊎◌, true,
  if◌then◌else◌, All, arith,
}
use quantumbilling.Models.{UsageEvent, KeyContext}

pub record Json : Type 0 where
  pub unmarshal_event : Text → Option UsageEvent
  -- `{"events":[...]}`, where a missing field is an empty slice
  pub unmarshal_wrapped : Text → Option (List UsageEvent)
  pub unmarshal_bare : Text → Option (List UsageEvent)
  pub unmarshal_key_context : Text → Option KeyContext
  pub marshal_event : UsageEvent → Option Text
  pub marshal_map : List (Text × Text) → Text

-- The string of a field, or the zero value.
unfoldable pub field_of : Text → List (Text × Text) → Text
field_of k [] = []
field_of k ((j, v) ∷ m) = if text_eq j k then v else field_of k m

-- The struct tags of `KeyContext`.
unfoldable pub key_context_of : List (Text × Text) → KeyContext
key_context_of m = record {
  key_id = field_of (text "key_id") m;
  org_id = field_of (text "org_id") m;
  customer_id = field_of (text "customer_id") m;
  source_mode = field_of (text "source_mode") m;
  status = field_of (text "status") m;
}

-- Documented: a struct is read by its tags from an encoded map. It is stated for ASCII texts, since
-- invalid UTF-8 is replaced.
pub record JsonLaws (json : Json) : Type 0 where
  pub unmarshal-marshal_map :
      (m : List (Text × Text))
      → All (λ (f : Text × Text). is_ascii f.1 ≡ true) m
      → json.unmarshal_key_context (json.marshal_map m) ≡ some (key_context_of m)

-- A decoded slice that has an element.
non_empty : Option (List UsageEvent) → Option (List UsageEvent)
non_empty none = none
non_empty (some []) = none
non_empty (some (e ∷ es)) = some (e ∷ es)

or_else : Option (List UsageEvent) → Option (List UsageEvent) → Option (List UsageEvent)
or_else none next = next
or_else (some es) next = some es

unfoldable pub parse_ingest_batch : Json → Text → Option (List UsageEvent)
unfolding non_empty or_else
parse_ingest_batch json body =
    or_else (non_empty (json.unmarshal_wrapped body)) (non_empty (json.unmarshal_bare body))

-- A parsed batch has an event, and is what one of the two decoders found.
pub parse_ingest_batch_sound :
    (json : Json) (body : Text) (es : List UsageEvent)
    → parse_ingest_batch json body ≡ some es
    → (es ≢ []) × ((json.unmarshal_wrapped body ≡ some es) ⊎ (json.unmarshal_bare body ≡ some es))
unfolding parse_ingest_batch
parse_ingest_batch_sound json body es h = ground arith
