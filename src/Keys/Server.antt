-- ===== src/Keys/Server.antt =====
-- engine/cmd/keys-api/main.go: the server of the keys API over its three services: its routes, the
-- registration of provider keys and the placeholder of the audit log.
pub mod Laws
pub mod Providers
use quantumbilling.Common.{
  ℕ, Text, text, text_eq, Bool, true, false, not, Option, none, some, if◌then◌else◌,
}
use quantumbilling.Common.Search.{has_prefix}
use quantumbilling.Common.Outcome.{Outcome, done, failed}
use quantumbilling.Models.Codec.{Json}
use quantumbilling.Platform.Redis.{Redis}
use quantumbilling.Byok.{Crypto, ProviderTable, register_provider_key}
use quantumbilling.Keys.{KeyRequest, Packages, Draw}
use quantumbilling.Keys.Table.{KeyTable}
use quantumbilling.Keys.Api.{
  Answer, problem, status, Call, bad_body, extract_code, handle_keys, handle_key_by_id,
}

-- The body of a registration.
pub record ProviderRequest : Type 0 where
  pub org_id : Text
  pub provider : Text
  pub api_key : Text

-- `handleBYOK`, where `iv` is what crypto/rand gives
unfoldable pub handle_byok :
    Crypto
    → (Text → Option ProviderRequest)
    → Option Text
    → Call
    → ProviderTable
    → Answer × ProviderTable
unfolding extract_code
handle_byok crypto decode iv r table =
    if not (text_eq r.method (text "POST"))
    then (problem 405 (text "METHOD_NOT_ALLOWED") (text "only POST"), table)
    else elim (decode r.body) [
      | none ↦ (bad_body, table)
      | some req ↦
          let (outcome, table') =
            register_provider_key crypto iv req.org_id req.provider req.api_key table in
          (
            elim outcome [
              | failed message ↦ problem 400 (extract_code message) message
              | done u ↦ status 201 (text "registered")
            ],
            table',
          )
    ]

-- What the server answers: the services' answers, the health checks, the empty audit log, and what
-- http.ServeMux answers by itself.
pub data Reply : Type 0 where
  api : Answer → Reply
  healthy : Reply
  is_ready : Reply
  no_audit_rows : Reply
  redirect : Text → Reply
  not_found : Reply

-- `handleSecurityAuditLogs`
unfoldable pub handle_security_audit_logs : Call → Reply
handle_security_audit_logs r =
    if not (text_eq r.method (text "GET"))
    then api (problem 405 (text "METHOD_NOT_ALLOWED") (text "only GET"))
    else no_audit_rows

-- The tables and the cache behind the server.
pub record State (redis : Redis) : Type 0 where
  pub keys : KeyTable
  pub cache : redis.Store
  pub providers : ProviderTable

-- What the server draws on: encoding/json on the two bodies, and the path that http.ServeMux makes
-- of the path of a request.
pub record Tools : Type 0 where
  pub json : Json
  pub decode_key : Text → Option KeyRequest
  pub decode_provider : Text → Option ProviderRequest
  pub clean_path : Text → Text
  pub pkg : Packages
  pub crypto : Crypto

module _ (redis : Redis) (tools : Tools) where
  -- The mux at a clean path.
  unfoldable pub route : Draw → Option Text → Call → State redis → Reply × State redis
  unfolding handle_security_audit_logs
  route draw iv r s =
      if text_eq r.path (text "/health")
      then (healthy, s)
      else if text_eq r.path (text "/ready")
      then (is_ready, s)
      else if text_eq r.path (text "/v1/keys")
      then (let (answer, table, cache) =
            handle_keys redis tools.json tools.pkg tools.decode_key draw r (s.keys, s.cache) in
          (api answer, record s { keys = table; cache = cache }))
      else if text_eq r.path (text "/v1/byok/config")
      then (let (answer, table) = handle_byok tools.crypto tools.decode_provider iv r s.providers in
          (api answer, record s { providers = table }))
      else if text_eq r.path (text "/v1/security-audit-logs")
      then (handle_security_audit_logs r, s)
      else if has_prefix r.path (text "/v1/keys/")
      then (let (answer, table) = handle_key_by_id r s.keys in
          (api answer, record s { keys = table }))
      else (not_found, s)

  -- The server. The paths of CONNECT are not cleaned.
  unfoldable pub serve : Draw → Option Text → Call → State redis → Reply × State redis
  unfolding route
  serve draw iv r s =
      let clean = if text_eq r.method (text "CONNECT") then r.path else tools.clean_path r.path in
      if not (text_eq clean r.path) then (redirect clean, s) else route draw iv r s
