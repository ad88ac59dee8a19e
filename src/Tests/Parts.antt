-- ===== src/Tests/Parts.antt =====
-- The theorems on authentication, tracing, provider keys, identifiers and the analytics routes at
-- concrete inputs.
use quantumbilling.Common.{
  ℕ, List, All, ◌≡◌, refl, arith, [], ◌∷◌, ◌++◌, text, text_eq, true, false, Option, some, length,
}
use quantumbilling.Models.{KeyContext}
use quantumbilling.Models.EventId.{new_uuid}
use quantumbilling.Models.EventId.Laws.{IsUuid4, new_uuid-IsUuid4}
use quantumbilling.Common.Digits.{IsByte}
use quantumbilling.Platform.Redis.Memory.{memory, lookup, read}
use quantumbilling.Http.{Request, Response, World, event_accepted}
use quantumbilling.Auth
use quantumbilling.Auth.{granted, validate_api_key, auth_middleware, mask_key}
use quantumbilling.Auth.Laws.{mask_key-append}
use quantumbilling.Ingest.Rollback.{is_error}
use quantumbilling.Tracing.{TraceContext, to_string}
use quantumbilling.Tracing.Laws.{IsSized, parse-to_string, to_string-parse}
use quantumbilling.Analytics.Path.{match_path}
use quantumbilling.Analytics.Path.Laws.{IsPart}
use quantumbilling.Analytics.Reports.{org_summary, empty_summary}
use quantumbilling.Analytics.Routes.{org_route}
use quantumbilling.Analytics.Routes.Laws.{org_path, org_route-summary}
use quantumbilling.Samples.{json, server, world, request, key_context}

grants : (validate_api_key memory json (text "sk-live-1") server).0 ≡ granted key_context
unfolding validate_api_key Auth.of_reply Auth.of_value Auth.by_status lookup read text text_eq
grants = refl

-- A handler that accepts everything.
abbrev accepting : Request → Option KeyContext → World memory → Response × World memory
accepting r kc w = (event_accepted (text "e1"), w)

served : is_error (auth_middleware memory json accepting (request []) (world server)).0 ≡ false
unfolding auth_middleware validate_api_key Auth.of_reply Auth.of_value Auth.by_status lookup read
    text text_eq
served = refl

eight : length (text "sk-live-") ≡ 8
unfolding text
eight = refl

mask_key-append_example :
    mask_key (text "sk-live-" ++ text "12") ≡ mask_key (text "sk-live-" ++ text "secret")
mask_key-append_example = mask_key-append (text "sk-live-") (text "12") (text "secret") eight

abbrev trace : TraceContext
trace = record {
  trace_id = text "0af7651916cd43dd8448eb211c80319c";
  span_id = text "b7ad6b7169203331";
  trace_flags = text "01";
}

trace-IsSized : IsSized trace
unfolding text
trace-IsSized = (refl, refl, refl)

to_string-parse_example : (to_string (some trace) ≡ to_string (some trace)) × IsSized trace
to_string-parse_example =
    to_string-parse (to_string (some trace)) trace (parse-to_string trace trace-IsSized)

abbrev random : List ℕ
random = 255 ∷ 1 ∷ 2 ∷ 3 ∷ 4 ∷ 5 ∷ 255 ∷ 7 ∷ 8 ∷ 9 ∷ 10 ∷ 11 ∷ 12 ∷ 13 ∷ 14 ∷ 15 ∷ []

all_bytes : All IsByte random
all_bytes = ground arith

new_uuid-IsUuid4_example : IsUuid4 random (new_uuid random)
new_uuid-IsUuid4_example = new_uuid-IsUuid4 random refl all_bytes

acme-IsPart : IsPart (text "acme")
unfolding text
acme-IsPart = ground arith

org_route-summary_example :
    (match_path (org_path (text "acme") (text "summary")) (text "/v1/orgs/*/summary") ≡ true)
    × (org_route (org_path (text "acme") (text "summary"))
        ≡ org_summary (empty_summary (text "summary")))
org_route-summary_example = org_route-summary (text "acme") acme-IsPart
