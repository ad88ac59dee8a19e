-- ===== src/Tests/Tools.antt =====
-- The theorems on the audit log, the read path and the generated events, at concrete inputs.
use quantumbilling.Common.{
  ℕ, ◌≡◌, ◌↔◌, arith, List, [], ◌∷◌, map, text, none, true, false, some, Option, Text, Bool, ◌&&◌,
}
use quantumbilling.Common.Int.{pos}
use quantumbilling.Common.Outcome.{done}
use quantumbilling.Security.{
  Strings, Violation, AuditRow, ready, is_valid_violation_type, violation_invalid_key,
}
use quantumbilling.Security.Laws.{taken, AreRowsOf, log_all, log_all-AreRowsOf}
use quantumbilling.Analytics.Reports.{Query}
use quantumbilling.Analytics.Token.{
  Signing, Claims, LacksDot, signed, verify_service_token, validate_scope, validate_scope-signed,
}
use quantumbilling.Fixture.{Rng, RngLaws}
use quantumbilling.Fixture.Laws.{AreSamples, generate-AreSamples}

abbrev strings : Strings
strings = record { trim_space = λ s. s; split_host_port = λ s. none }

abbrev violation : Violation
violation = record {
  violation_type = violation_invalid_key;
  org_id = [];
  key_prefix = text "sk-live-";
  detail = text "unknown key";
  client = record { forwarded_for = text "10.0.0.1, 10.0.0.2"; remote_addr = [] };
}

abbrev violations : List (ℕ × Violation)
violations = (1, violation) ∷ (2, record violation { org_id = text "o1" }) ∷ []

-- The columns take a row whose type is a violation type and that has no organization.
abbrev takes : AuditRow → Bool
takes row = is_valid_violation_type row.violation_type && is_none row.org_id
  where
    is_none : Option Text → Bool
    is_none none = true
    is_none (some id) = false

log_all-AreRowsOf_example :
    (new : List AuditRow) × AreRowsOf strings (map (λ v. v.1) violations) new
    × (log_all strings violations (ready takes []) ≡ ready takes (taken strings takes new))
log_all-AreRowsOf_example = log_all-AreRowsOf strings violations takes []

abbrev query : Query
query = record { org_id = text "o1"; from = text "2024-01-01"; to = [] }

abbrev signing : Signing
signing = record { env_secret = []; sign_hex = λ secret message. text "abc" }

plain_header : LacksDot (text "h")
unfolding text
plain_header = ground arith

plain_signature : LacksDot (text "abc")
unfolding text
plain_signature = ground arith

validate_scope-signed_example :
    (claims : Claims) × (verify_service_token signing (signed signing (text "h") (text "h"))
      ≡ done claims)
    × ((validate_scope claims (text "o1") (text "") [] ≡ true)
        ↔ ((text "o1" ≡ []) × (text "" ≡ [])))
validate_scope-signed_example =
    validate_scope-signed signing (text "h") (text "h") (text "o1") (text "") [] plain_header
      plain_header plain_signature

-- A source that draws zero.
abbrev zero_rng : Rng
zero_rng = record {
  Source = ℕ;
  Fraction = ℕ;
  intn = λ n s. (0, s);
  float64 = λ s. (0, s);
  int63 = λ s. (0, s);
  format_cost = λ spent f. text "0.000000070";
}

zero_rng-RngLaws : RngLaws zero_rng
zero_rng-RngLaws = record { intn-lt = λ n s positive. positive }

generate-AreSamples_example :
    AreSamples zero_rng zero_rng-RngLaws
      (pos 42)
      (text "o1")
      (text "c1")
      (λ i. pos 7)
      (λ i. pos i)
      3
      0
generate-AreSamples_example =
    generate-AreSamples zero_rng zero_rng-RngLaws (pos 42) (text "o1") (text "c1") (λ i. pos 7)
      (λ i. pos i) 3 0
