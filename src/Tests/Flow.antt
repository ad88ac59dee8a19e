-- ===== src/Tests/Flow.antt =====
-- The flow of an event over several components, at a concrete one.
use quantumbilling.Common.{
  ◌≡◌, refl, [], ◌∷◌, text, text_eq, some, none, arith, inl, inr, if◌then◌else◌,
}
use quantumbilling.Models.{validate, enrich}
use quantumbilling.Models.Codec.{Json, JsonLaws}
use quantumbilling.Platform.Postgres.{serving, org_exists, has_org}
use quantumbilling.Platform.Redis.Memory.{memory, memory-RedisLaws, lookup, write}
use quantumbilling.Http.{Request, event_accepted, post}
use quantumbilling.Ingest.{IngestHandler}
use quantumbilling.Ingest.Complete.{Acceptable}
use quantumbilling.Common.Outcome.{done}
use quantumbilling.Keys.{check_request, is_budget, create_key, store_key}
use quantumbilling.Keys.Table.{ready}
use quantumbilling.Keys.Laws.{context_of}
use quantumbilling.IngestApi.{api, serve}
use quantumbilling.IngestApi.Created.{serve-create_key}
use quantumbilling.Samples.{read_id, event, fresh, empty_server, world, handler}
use quantumbilling.Samples.Codec.{map_json, map_json-JsonLaws}
use quantumbilling.Tests.Keys.{packages, key_request, draw, response, plain}
use quantumbilling.Tests.Server.{os, net, fresh_at}

-- The organization is in Postgres only.
abbrev with_pg : IngestHandler
with_pg = record handler {
  pg = serving (record {
    read_uuid = read_id;
    organizations = record { id = text "o1"; status = text "ACTIVE" } ∷ [];
    end_users = [];
  });
}

abbrev posted : Request
posted = record { method = post; api_key = response.raw_key; content_type = []; body = text "{e1}" }

-- The codec of maps, with one body that it knows.
abbrev one_json : Json
one_json = record map_json {
  unmarshal_event = λ body. if text_eq body (text "{e1}") then some event else none;
  marshal_event = λ e. some (text "{...}");
}

one_json-JsonLaws : JsonLaws one_json
one_json-JsonLaws = record { unmarshal-marshal_map = map_json-JsonLaws.unmarshal-marshal_map }

abbrev after : memory.Store
after = (create_key memory one_json packages draw key_request (ready [], empty_server)).2

creates_one :
    (create_key memory one_json packages draw key_request (ready [], empty_server)).0
    ≡ done response
unfolding create_key check_request is_budget text text_eq
creates_one = refl

posted_body : one_json.unmarshal_event (text "{e1}") ≡ some event
unfolding text text_eq
posted_body = refl

acceptable_one :
    Acceptable memory memory-RedisLaws one_json with_pg posted
      (enrich (context_of response) fresh event)
      after
unfolding lookup text text_eq validate enrich create_key check_request is_budget store_key write
    org_exists has_org
acceptable_one = record {
  method = refl;
  content = inl refl;
  size = omega arith;
  valid = refl;
  free = refl;
  org = inr refl;
  user = inl refl;
  message = text "{...}";
  encodes = refl;
}

serve-create_key_example :
    ((serve memory one_json with_pg os net fresh_at
        (text "/v1/events")
        posted
        (record { store = after; published = [] })).0
      ≡ api (event_accepted (enrich (context_of response) fresh event).event_id))
    × ((serve memory one_json with_pg os net fresh_at
          (text "/v1/events")
          posted
          (record { store = after; published = [] })).1.published
        ≡ record { messages = text "{...}" ∷ []; partition_key = text "o1" } ∷ [])
unfolding text acceptable_one
serve-create_key_example =
    serve-create_key memory memory-RedisLaws one_json with_pg os net one_json-JsonLaws packages draw
      key_request (ready []) (world empty_server) response fresh_at posted event creates_one refl
      plain refl refl posted_body acceptable_one
