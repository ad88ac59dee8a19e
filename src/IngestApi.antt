-- ===== src/IngestApi.antt =====
-- engine/cmd/ingest-api/main.go: the server of the ingest API. It routes the requests, with the
-- middleware in front of the two handlers, and answers the health checks.
pub mod Laws
pub mod Created
use quantumbilling.Common.{
  ℕ, ◌++◌, Text, text, text_eq, Bool, true, false, not, ◌&&◌, Option, if◌then◌else◌,
}
use quantumbilling.Common.Search.{has_prefix}
use quantumbilling.Models.{KeyContext, Fresh}
use quantumbilling.Models.Codec.{Json}
use quantumbilling.Platform.Redis.{Redis}
use quantumbilling.Http.{Request, Response, error, World}
use quantumbilling.Auth.{auth_middleware}
use quantumbilling.Ingest.{IngestHandler, handle_single_event}
use quantumbilling.Batch.{handle_batch_event}
use quantumbilling.Settings.{Os, env_or_default}

-- The rest of what the server asks of its surroundings: whether a TCP connection is made, and the
-- path that http.ServeMux makes of the path of a request.
pub record Net : Type 0 where
  pub dial : Text → Bool
  pub clean_path : Text → Text

-- What the readiness check writes for a dependency.
unfoldable pub bool_status : Bool → Text
bool_status ok = if ok then text "ok" else text "unavailable"

-- `checkTCP`
unfoldable pub check_tcp : Net → Text → Text → Bool
check_tcp net host port = net.dial (host ++ (text ":" ++ port))

-- An answer of the server: the redirects of http.ServeMux, the health checks, and the API's replies.
pub data Answer : Type 0 where
  redirect : Text → Answer
  healthy : Answer
  readiness : (status : ℕ) (all postgres redis kafka : Text) → Answer
  api : Response → Answer

-- `readyHandler`
unfoldable pub ready_handler : Os → Net → Answer
unfolding check_tcp bool_status env_or_default
ready_handler os net =
    let pg_ok =
      check_tcp net (env_or_default os (text "PG_HOST") (text "localhost"))
        (env_or_default os (text "PG_PORT") (text "5432")) in
    let redis_ok =
      check_tcp net (env_or_default os (text "REDIS_HOST") (text "localhost"))
        (env_or_default os (text "REDIS_PORT") (text "6379")) in
    let kafka_ok =
      check_tcp net (env_or_default os (text "KAFKA_HOST") (text "localhost"))
        (env_or_default os (text "KAFKA_PORT") (text "9092")) in
    let all_ok = pg_ok && redis_ok && kafka_ok in
    readiness (if all_ok then 200 else 503) (bool_status all_ok) (bool_status pg_ok)
      (bool_status redis_ok) (bool_status kafka_ok)

-- What a mux answers where no pattern matches, which is no error envelope: it has no code.
abbrev pub not_found : Response
not_found = error 404 (text "") (text "404 page not found")

module _ (redis : Redis) (json : Json) (h : IngestHandler) where
  -- The inner mux, behind the middleware. `fresh` is the clock and the random source of a request,
  -- whose batch draws from it once for each event.
  unfoldable pub ingest_mux :
      (ℕ → Fresh) → Text → Request → Option KeyContext → World redis → Response × World redis
  ingest_mux fresh path r kc w =
      if text_eq path (text "/v1/events")
      then handle_single_event redis json h (fresh 0) r kc w
      else if text_eq path (text "/v1/events/batch")
      then handle_batch_event redis json h fresh r kc w
      else (not_found, w)

  -- The outer mux, for a path that is clean.
  unfoldable pub route :
      Os → Net → (ℕ → Fresh) → Text → Request → World redis → Answer × World redis
  unfolding ingest_mux
  route os net fresh path r w =
      if text_eq path (text "/health")
      then (healthy, w)
      else if text_eq path (text "/ready")
      then (ready_handler os net, w)
      else if has_prefix path (text "/v1/")
      then (let (reply, v) = auth_middleware redis json (ingest_mux fresh path) r w in
          (api reply, v))
      else (api not_found, w)

  -- The server: http.ServeMux first redirects to the clean path, and from the bare name of a
  -- subtree into it. The paths of CONNECT are not cleaned.
  unfoldable pub serve :
      Os → Net → (ℕ → Fresh) → Text → Request → World redis → Answer × World redis
  unfolding route
  serve os net fresh path r w =
      let clean = if text_eq r.method (text "CONNECT") then path else net.clean_path path in
      if text_eq clean (text "/v1")
      then (redirect (text "/v1/"), w)
      else if not (text_eq clean path)
      then (redirect clean, w)
      else route os net fresh clean r w
