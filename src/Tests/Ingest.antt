-- ===== src/Tests/Ingest.antt =====
-- Runs of the single-event handler, and its theorems at concrete requests.
use quantumbilling.Common.{◌≡◌, ◌≢◌, refl, [], ◌++◌, text, text_eq, some}
use quantumbilling.Models.{validate, enrich}
use quantumbilling.Platform.Postgres.{org_exists, end_user_in_org}
use quantumbilling.Http.{error, event_accepted}
use quantumbilling.Platform.Redis.Memory.{memory, memory-RedisLaws, lookup, claim, count, erase}
use quantumbilling.Ingest
use quantumbilling.Ingest.{handle_single_event, idem_key}
use quantumbilling.Ingest.Verify.{verify_org, verify_end_user}
use quantumbilling.Ingest.Accepted.{Accepted, handle-Accepted}
use quantumbilling.Ingest.Once.{handle_again}
use quantumbilling.Samples.{
  event, key_context, fresh, later, json, request, server, empty_server, world, handler,
}

-- Opens what a run goes through.
run : Unit {0}
unfolding handle_single_event Ingest.admit Ingest.claim Ingest.claimed Ingest.check_org
    Ingest.check_end_user Ingest.serialize_and_publish verify_org verify_end_user lookup claim count
    erase text text_eq validate enrich org_exists end_user_in_org
run = tt

accepts_e1 :
    (handle_single_event memory json handler fresh
      (request (text "{e1}"))
      (some key_context)
      (world server)).0
    ≡ event_accepted (text "e1")
unfolding run
accepts_e1 = refl

refuses_unknown_org :
    (handle_single_event memory json handler fresh
      (request (text "{e1}"))
      (some key_context)
      (world empty_server)).0
    ≡ error 403 (text "UNKNOWN_ORG") (text "organization o1 not found")
unfolding run
refuses_unknown_org = refl

handle-Accepted_example :
    Accepted memory json handler fresh
      (request (text "{e1}"))
      (some key_context)
      (world server)
      (text "e1")
handle-Accepted_example =
    handle-Accepted memory json handler fresh (request (text "{e1}")) (some key_context)
      (world server) (text "e1") accepts_e1

event_body : json.unmarshal_event (text "{e1}") ≡ some event
unfolding text text_eq
event_body = refl

event_named : event.event_id ≢ []
unfolding text
event_named = cc

handle_again_example :
    (handle_single_event memory json handler later
      (request (text "{e1}"))
      (some key_context)
      (handle_single_event memory json handler fresh
        (request (text "{e1}"))
        (some key_context)
        (world server)).1).0
    ≡ error 409 (text "DUPLICATE_EVENT") (text "event " ++ (text "e1" ++ text " already processed"))
handle_again_example =
    handle_again memory memory-RedisLaws json handler fresh later (request (text "{e1}"))
      (some key_context) (world server) (text "e1") event refl event_body event_named accepts_e1
