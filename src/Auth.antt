-- ===== src/Auth.antt =====
-- engine/internal/auth/redis_provider.go: the lookup of an API key and the middleware.
pub mod Laws
use quantumbilling.Common.{
  ℕ, List, [], ◌∷◌, ◌++◌, Text, text, text_eq, is_empty, Bool, true, false, ◌&&◌, ◌||◌, Option,
  none, some, ltb, length, take, if◌then◌else◌,
}
use quantumbilling.Common.Search.{contains}
use quantumbilling.Models.{
  KeyContext, source_mode_direct_ingest, key_status_active, key_status_revoked, key_status_expired,
}
use quantumbilling.Models.Codec.{Json}
use quantumbilling.Platform.Redis.{Redis, Reply, reply, unavailable}
use quantumbilling.Http.{Request, Response, error, World}

pub record AuthError : Type 0 where
  pub status_code : ℕ
  pub error_code : Text
  pub message : Text

abbrev pub err_key_not_found : AuthError
err_key_not_found = record {
  status_code = 401;
  error_code = text "UNAUTHORIZED";
  message = text "invalid API key";
}

abbrev pub err_key_revoked : AuthError
err_key_revoked = record {
  status_code = 401;
  error_code = text "KEY_REVOKED";
  message = text "API key has been revoked";
}

abbrev pub err_key_expired : AuthError
err_key_expired = record {
  status_code = 401;
  error_code = text "KEY_EXPIRED";
  message = text "API key has expired";
}

abbrev pub err_auth_service_unavailable : AuthError
err_auth_service_unavailable = record {
  status_code = 503;
  error_code = text "AUTH_SERVICE_UNAVAILABLE";
  message = text "authentication service unavailable";
}

-- `MaskKey`
unfoldable pub mask_key : Text → Text
mask_key raw_key = if ltb (length raw_key) 8 then text "..." else take 8 raw_key ++ text "..."

-- The two results of `ValidateAPIKey`. What wraps an error goes to the log only.
pub data Verdict : Type 0 where
  granted : KeyContext → Verdict
  denied : AuthError → Verdict

-- The switch on the status of a decoded context.
unfoldable pub by_status : KeyContext → Verdict
by_status kc =
    if text_eq kc.status key_status_active
    then granted kc
    else if text_eq kc.status key_status_revoked
    then denied err_key_revoked
    else if text_eq kc.status key_status_expired
    then denied err_key_expired
    else denied err_key_not_found

-- The fallback: the value is the organization.
abbrev pub plain_context : Text → KeyContext
plain_context org = record {
  key_id = [];
  org_id = org;
  customer_id = [];
  source_mode = source_mode_direct_ingest;
  status = key_status_active;
}

unfoldable pub of_value : Json → Text → Verdict
unfolding by_status
of_value json val = elim (json.unmarshal_key_context val) [
  | some kc ↦ by_status kc
  | none ↦ granted (plain_context val)
]

abbrev pub api_key_key : Text → Text
api_key_key raw_key = text "apikey:" ++ raw_key

-- What the reply of GET decides.
unfoldable pub of_reply : Json → Reply (Option Text) → Verdict
unfolding of_value
of_reply json unavailable = denied err_auth_service_unavailable
of_reply json (reply none) = denied err_key_not_found
of_reply json (reply (some val)) = of_value json val

-- `writeAuthError`
unfoldable pub write_auth_error : ℕ → Text → Text → Response
write_auth_error status code message =
    error status code (if contains message (text "sk-") then text "invalid API key" else message)

module _ (redis : Redis) (json : Json) where
  -- `ValidateAPIKey`
  unfoldable pub validate_api_key : Text → redis.Store → Verdict × redis.Store
  unfolding of_reply
  validate_api_key raw_key s =
      let (r, s') = redis.get (api_key_key raw_key) s in (of_reply json r, s')

  -- `AuthMiddleware`: the next handler gets the context of the key.
  unfoldable pub auth_middleware :
      (Request → Option KeyContext → World redis → Response × World redis)
      → Request
      → World redis
      → Response × World redis
  unfolding validate_api_key write_auth_error
  auth_middleware next r w =
      if is_empty r.api_key
      then (write_auth_error 401 (text "UNAUTHORIZED") (text "missing X-API-Key header"), w)
      else let (verdict, s) = validate_api_key r.api_key w.store in
        elim verdict [
          | granted kc ↦ next r (some kc) (record w { store = s })
          | denied e ↦
              (write_auth_error e.status_code e.error_code e.message, record w { store = s })
        ]
