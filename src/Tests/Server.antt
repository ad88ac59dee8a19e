-- ===== src/Tests/Server.antt =====
-- Runs of the server of the ingest API, and the theorems on it at concrete requests.
use quantumbilling.Common.{
  is_any, ℕ, ◌≡◌, refl, List, [], ◌∷◌, text, text_eq, true, false, some, none,
}
use quantumbilling.Common.Search.{has_prefix}
use quantumbilling.Models.{Fresh, validate, enrich}
use quantumbilling.Auth
use quantumbilling.Auth.{auth_middleware, validate_api_key}
use quantumbilling.Platform.Postgres.{org_exists, end_user_in_org}
use quantumbilling.Platform.Redis.Memory.{
  memory, memory-RedisLaws, lookup, claim, count, erase, read,
}
use quantumbilling.Http.{event_accepted}
use quantumbilling.Ingest
use quantumbilling.Ingest.{IngestHandler, handle_single_event, idem_key}
use quantumbilling.Ingest.Verify.{verify_org, verify_end_user}
use quantumbilling.Ingest.Replies.{Call, handle_all}
use quantumbilling.Ingest.Ledger.Refines.{IsLedgerOf, Next, Served, handle-Step, handle_all-Served}
use quantumbilling.Settings.{Os}
use quantumbilling.IngestApi
use quantumbilling.IngestApi.{Net, Answer, api, serve, not_found}
use quantumbilling.IngestApi.Laws.{
  EventServed, serve_accepted, is_acceptance, published-serve_refused,
}
use quantumbilling.Samples.{
  key_context, fresh, later, json, request, server, empty_server, world, handler,
}

abbrev call : Fresh → Call
call f = record { fresh = f; request = request (text "{e1}"); context = some key_context }

-- No idempotency key is held at first.
empty_ledger : IsLedgerOf memory memory-RedisLaws json handler (world server) []
unfolding lookup text text_eq is_any
empty_ledger = record { up = refl; same = λ d. refl }

handle-Step_example :
    Next memory memory-RedisLaws json handler
      (handle_single_event memory json handler fresh
        (request (text "{e1}"))
        (some key_context)
        (world server)).0
      (handle_single_event memory json handler fresh
        (request (text "{e1}"))
        (some key_context)
        (world server)).1
      []
handle-Step_example =
    handle-Step memory memory-RedisLaws json handler (call fresh) (world server) [] empty_ledger

abbrev twice : List Call
twice = call fresh ∷ call later ∷ []

handle_all-Served_example :
    Served memory memory-RedisLaws json handler
      (handle_all memory json handler twice (world server)).0
      (handle_all memory json handler twice (world server)).1
      []
handle_all-Served_example =
    handle_all-Served memory memory-RedisLaws json handler twice (world server) [] empty_ledger

abbrev pub os : Os
os = record { get_env = λ k. []; atoi = λ s. none; parse_duration = λ s. none }

abbrev pub net : Net
net = record { dial = λ a. true; clean_path = λ p. p }

abbrev pub fresh_at : ℕ → Fresh
fresh_at i = fresh

-- Opens what a request goes through.
unfoldable pub run : Unit {0}
unfolding serve IngestApi.route IngestApi.ingest_mux auth_middleware validate_api_key Auth.of_reply
    Auth.of_value Auth.by_status Auth.write_auth_error has_prefix read handle_single_event
    Ingest.admit Ingest.claim Ingest.claimed Ingest.check_org Ingest.check_end_user
    Ingest.serialize_and_publish verify_org verify_end_user lookup claim count erase text text_eq
    validate enrich org_exists end_user_in_org
run = tt

serves_e1 :
    (serve memory json handler os net fresh_at
      (text "/v1/events")
      (request (text "{e1}"))
      (world server)).0
    ≡ api (event_accepted (text "e1"))
unfolding run
serves_e1 = refl

serve_accepted_example :
    EventServed memory json handler os net fresh_at
      (text "/v1/events")
      (request (text "{e1}"))
      (world server)
      (text "e1")
serve_accepted_example =
    serve_accepted memory json handler os net fresh_at (text "/v1/events") (request (text "{e1}"))
      (world server) (text "e1") serves_e1

refuses_key :
    is_acceptance
      (serve memory json handler os net fresh_at
        (text "/v1/events")
        (request (text "{e1}"))
        (world empty_server)).0
    ≡ false
unfolding run
refuses_key = refl

published-serve_refused_example :
    (serve memory json handler os net fresh_at
      (text "/v1/events")
      (request (text "{e1}"))
      (world empty_server)).1.published
    ≡ []
published-serve_refused_example =
    published-serve_refused memory json handler os net fresh_at (text "/v1/events")
      (request (text "{e1}")) (world empty_server) refuses_key
