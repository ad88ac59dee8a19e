-- ===== src/Ingest.antt =====
-- engine/internal/handler/ingest_handler.go: POST /v1/events. Each function is a stage of
-- `HandleSingleEvent`, and calls the next one where the handler goes on.
pub mod Verify
pub mod Laws
pub mod Accepted
pub mod Rollback
pub mod Once
pub mod Replies
pub mod Ledger
pub mod Complete
use quantumbilling.Common.{
  ℕ, List, [], ◌∷◌, ◌++◌, Text, text, text_eq, is_empty, Bool, true, false, not, ◌&&◌, ◌||◌, Option,
  none, some, ltb, length, if◌then◌else◌,
}
use quantumbilling.Models.{UsageEvent, KeyContext, Fresh, validate, enrich, default_max_body_size}
use quantumbilling.Models.Codec.{Json}
use quantumbilling.Platform.Redis.{Redis, Reply, reply, unavailable}
use quantumbilling.Platform.Postgres.{Postgres}
use quantumbilling.Http.{Request, Response, error, event_accepted, World, Publication, post}
use quantumbilling.Ingest.Verify.{verify_org, verify_end_user}

-- The dependencies of the handler, and the settings that it reads from the environment. The two
-- switches say whether a publish function is configured.
pub record IngestHandler : Type 0 where
  pub pg : Postgres
  pub publish : Bool
  pub pub_batch : Bool
  pub idempotency_ttl : ℕ
  pub max_batch_size : ℕ
  pub bloom_num_shards : ℕ

-- `fmt.Sprintf("idem:%s:%s", event.OrgID, event.EventID)`
abbrev pub idem_key : UsageEvent → Text
idem_key e = text "idem:" ++ (e.org_id ++ (b':' ∷ e.event_id))

module _ (redis : Redis) (json : Json) (h : IngestHandler) where
  -- The idempotency key is taken back, and the request fails.
  unfoldable pub roll_back : UsageEvent → Response → World redis → Response × World redis
  roll_back e response w = (response, record w { store = redis.del (idem_key e) w.store })

  -- `h.Publish(ctx, msgBytes, event.OrgID)`, if there is one. Its error is only logged.
  unfoldable pub hand_over : Text → UsageEvent → World redis → World redis
  hand_over msg e w =
      if h.publish
      then record w {
        published = w.published ++ record { messages = msg ∷ []; partition_key = e.org_id } ∷ [];
      }
      else w

  unfoldable pub serialize_and_publish : UsageEvent → World redis → Response × World redis
  unfolding roll_back hand_over
  serialize_and_publish e w = elim (json.marshal_event e) [
    | none ↦ roll_back e (error 500 (text "INTERNAL_ERROR") (text "failed to serialize event")) w
    | some msg ↦ (event_accepted e.event_id, hand_over msg e w)
  ]

  unfoldable pub check_end_user : UsageEvent → World redis → Response × World redis
  unfolding roll_back
  check_end_user e w =
      if is_empty e.end_user_id
      then serialize_and_publish e w
      else let (found, s) = verify_end_user redis h.pg e.org_id e.end_user_id w.store in
        if found
        then serialize_and_publish e (record w { store = s })
        else roll_back e
            (error 422 (text "END_USER_NOT_IN_ORG") (
              text "end_user " ++ (e.end_user_id ++ (text " does not belong to org " ++ e.org_id))))
            (record w { store = s })

  unfoldable pub check_org : UsageEvent → World redis → Response × World redis
  unfolding roll_back
  check_org e w =
      let (found, s) = verify_org redis h.pg e.org_id w.store in
      if found
      then check_end_user e (record w { store = s })
      else roll_back e
          (error 403 (text "UNKNOWN_ORG") (text "organization " ++ (e.org_id ++ text " not found")))
          (record w { store = s })

  -- What the reply of SETNX decides.
  unfoldable pub claimed : UsageEvent → Reply Bool → World redis → Response × World redis
  claimed e unavailable w =
      (error 503 (text "SERVICE_UNAVAILABLE") (text "idempotency service unavailable"), w)
  claimed e (reply false) w = (
    error 409 (text "DUPLICATE_EVENT") (text "event " ++ (e.event_id ++ text " already processed")),
    w,
  )
  claimed e (reply true) w = check_org e w

  unfoldable pub claim : UsageEvent → World redis → Response × World redis
  claim e w =
      let (r, s) = redis.set_nx (idem_key e) (text "1") h.idempotency_ttl w.store in
      claimed e r (record w { store = s })

  unfoldable pub admit : UsageEvent → World redis → Response × World redis
  admit e w = elim (validate e) [
    | some message ↦ (error 400 (text "VALIDATION_ERROR") message, w)
    | none ↦ claim e w
  ]

  unfoldable pub authorize :
      Fresh → UsageEvent → Option KeyContext → World redis → Response × World redis
  authorize fresh e none w =
      (error 401 (text "UNAUTHORIZED") (text "missing authentication context"), w)
  authorize fresh e (some kc) w = admit (enrich kc fresh e) w

  unfoldable pub parse_event :
      Fresh → Request → Option KeyContext → World redis → Response × World redis
  unfolding authorize
  parse_event fresh r kc w = elim (json.unmarshal_event r.body) [
    | none ↦ (error 400 (text "INVALID_JSON") (text "failed to parse JSON body"), w)
    | some e ↦ authorize fresh e kc w
  ]

  -- `HandleSingleEvent`, where `kc` is what the middleware has put into the request's context.
  unfoldable pub handle_single_event :
      Fresh → Request → Option KeyContext → World redis → Response × World redis
  unfolding parse_event
  handle_single_event fresh r kc w =
      if not (text_eq r.method post)
      then (error 405 (text "METHOD_NOT_ALLOWED") (text "only POST is allowed"), w)
      else if not (is_empty r.content_type)
          && not (text_eq r.content_type (text "application/json"))
      then (
        error 415 (text "UNSUPPORTED_MEDIA_TYPE") (text "Content-Type must be application/json"),
        w,
      )
      else if ltb default_max_body_size (length r.body)
      then (error 413 (text "PAYLOAD_TOO_LARGE") (text "request body exceeds 1MB limit"), w)
      else parse_event fresh r kc w
