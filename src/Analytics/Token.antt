-- ===== src/Analytics/Token.antt =====
-- `VerifyServiceToken` and `ValidateScope` of engine/internal/analytics/service.go, which no route
-- calls.
use quantumbilling.Common.{
  ℕ, ◌≡◌, ◌≢◌, ◌↔◌, refl, List, [], ◌∷◌, ◌++◌, Text, text, text_eq, text_eq_iff, text_eq_refl,
  is_empty, Bool, true, false, not, ◌&&◌, ◌==◌, arith, All, if◌then◌else◌,
}
use quantumbilling.Common.Outcome.{Outcome, done, failed}

-- A first byte of the first part
cons_head : ℕ → List Text → List Text
cons_head c [] = (c ∷ []) ∷ []
cons_head c (part ∷ parts) = (c ∷ part) ∷ parts

-- `strings.Split` at a byte
unfoldable pub split_on : ℕ → Text → List Text
unfolding cons_head
split_on d [] = [] ∷ []
split_on d (c ∷ s) = let rest = split_on d s in if c == d then [] ∷ rest else cons_head c rest

pub record Claims : Type 0 where
  pub org_id : Text
  pub customer_id : Text
  pub role : Text

-- The claims that are returned, whatever the payload is.
abbrev pub no_claims : Claims
no_claims = record { org_id = []; customer_id = []; role = [] }

-- The variable QB_SERVICE_TOKEN_SECRET, and the hexadecimal text of HMAC-SHA256 of a message under
-- a secret.
pub record Signing : Type 0 where
  pub env_secret : Text
  pub sign_hex : Text → Text → Text

abbrev pub secret_of : Signing → Text
secret_of signing =
    if is_empty signing.env_secret
    then text "dev-service-token-secret-change-me"
    else signing.env_secret

-- What the parts decide.
unfoldable pub verify_parts : Signing → List Text → Outcome Claims
verify_parts signing (header ∷ payload ∷ signature ∷ []) =
    if not (text_eq signature (signing.sign_hex (secret_of signing) (header ++ (b'.' ∷ payload))))
    then failed (text "invalid token signature")
    else done no_claims
verify_parts signing _ = failed (text "invalid token format")

unfoldable pub verify_service_token : Signing → Text → Outcome Claims
unfolding split_on verify_parts
verify_service_token signing token = verify_parts signing (split_on b'.' token)

unfoldable pub validate_scope : Claims → Text → Text → Text → Bool
validate_scope claims org_id customer_id role =
    if not (text_eq claims.org_id org_id)
    then false
    else if not (is_empty customer_id) && not (text_eq claims.customer_id customer_id)
    then false
    else true

-- No dot in a text.
abbrev pub LacksDot : Text → Type 0
LacksDot = All (λ c. c ≢ b'.')

split_on_last : (s : Text) → LacksDot s → split_on b'.' s ≡ s ∷ []
unfolding split_on
split_on_last [] h = refl
split_on_last (c ∷ s) h = ground (arith, split_on_last s h.1, h.0)

split_on-append : (s t : Text) → LacksDot s → split_on b'.' (s ++ (b'.' ∷ t)) ≡ s ∷ split_on b'.' t
unfolding split_on
split_on-append [] t h = ground arith
split_on-append (c ∷ s) t h = ground (arith, split_on-append s t h.1, h.0)

-- A token of a header and a payload that is signed with the secret
abbrev pub signed : Signing → Text → Text → Text
signed signing header payload =
    header
    ++ (b'.'
        ∷ (payload ++ (b'.' ∷ signing.sign_hex (secret_of signing) (header ++ (b'.' ∷ payload)))))

verify-signed :
    (signing : Signing) (header payload : Text)
    → LacksDot header
    → LacksDot payload
    → LacksDot (signing.sign_hex (secret_of signing) (header ++ (b'.' ∷ payload)))
    → verify_service_token signing (signed signing header payload) ≡ done no_claims
unfolding verify_service_token verify_parts
verify-signed signing header payload h p s =
    rw (split_on-append header _ h, split_on-append payload _ p, split_on_last _ s)
      (rw (text_eq_refl (signing.sign_hex (secret_of signing) (header ++ (b'.' ∷ payload)))) refl)

-- A signed token is verified, whatever its payload claims, and its claims are then in scope for no
-- organization and no customer that has a name: exactly the empty ones are in scope. The signature
-- is hexadecimal, without a dot, and so are the encoded header and payload.
pub validate_scope-signed :
    (signing : Signing) (header payload org_id customer_id role : Text)
    → LacksDot header
    → LacksDot payload
    → LacksDot (signing.sign_hex (secret_of signing) (header ++ (b'.' ∷ payload)))
    → (claims : Claims) × (verify_service_token signing (signed signing header payload)
        ≡ done claims)
      × ((validate_scope claims org_id customer_id role ≡ true)
          ↔ ((org_id ≡ []) × (customer_id ≡ [])))
unfolding validate_scope
validate_scope-signed signing header payload org_id customer_id role h p s = (
  no_claims,
  verify-signed signing header payload h p s,
  ground (arith, text_eq_iff [] org_id, text_eq_iff [] customer_id),
)
