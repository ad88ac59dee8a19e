-- ===== src/Auth/Laws.antt =====
-- What authentication lets through, and what its errors say.
use quantumbilling.Common.{
  ℕ, ◌≡◌, refl, subst, ◌⊎◌, [], ◌++◌, Text, text, text_eq_refl, true, false, Option, none, some,
  length, take, length-append, arith, inl, inr, take-append_self, Option-cases,
}
use quantumbilling.Common.Search.{contains}
use quantumbilling.Models.{KeyContext, is_active, key_status_active}
use quantumbilling.Models.Codec.{Json}
use quantumbilling.Platform.Redis.{Redis, Reply, reply, unavailable}
use quantumbilling.Http.{Request, Response, error, World}
use quantumbilling.Ingest.Rollback.{is_error}
use quantumbilling.Auth.{
  AuthError, mask_key, Verdict, granted, denied, by_status, of_value, of_reply, plain_context,
  write_auth_error, validate_api_key, auth_middleware,
}

by_status-is_active : (kc ctx : KeyContext) → by_status kc ≡ granted ctx → is_active ctx ≡ true
unfolding by_status is_active
by_status-is_active kc ctx h = ground arith

plain_context-is_active : (val : Text) → is_active (plain_context val) ≡ true
unfolding is_active
plain_context-is_active val = text_eq_refl key_status_active

of_value-is_active :
    (json : Json) (val : Text) (ctx : KeyContext)
    → of_value json val ≡ granted ctx
    → is_active ctx ≡ true
unfolding of_value
of_value-is_active json val ctx h = elim (Option-cases (json.unmarshal_key_context val)) [
  | inl e ↦
      let same : plain_context val ≡ ctx = ground (arith, e, h) in
      subst (λ c. is_active c ≡ true) same (plain_context-is_active val)
  | inr (kc, e) ↦ by_status-is_active kc ctx (ground (arith, e, h))
]

of_reply-is_active :
    (json : Json) (r : Reply (Option Text)) (ctx : KeyContext)
    → of_reply json r ≡ granted ctx
    → is_active ctx ≡ true
unfolding of_reply
of_reply-is_active json unavailable ctx h = ground arith
of_reply-is_active json (reply none) ctx h = ground arith
of_reply-is_active json (reply (some val)) ctx h = of_value-is_active json val ctx h

-- A key is granted an active context only: one whose cached status is revoked, expired or unknown is
-- not.
pub validate-is_active :
    (redis : Redis) (json : Json) (raw_key : Text) (s : redis.Store) (ctx : KeyContext)
    → (validate_api_key redis json raw_key s).0 ≡ granted ctx
    → is_active ctx ≡ true
unfolding validate_api_key
validate-is_active redis json raw_key s ctx h = of_reply-is_active json _ ctx h

-- The message of an error reply
abbrev pub message_of : Response → Text
message_of (error status code message) = message
message_of _ = []

literal-lacks : contains (text "invalid API key") (text "sk-") ≡ false
unfolding text contains
literal-lacks = refl

-- The message of an authentication error never has the marker of a key in it.
pub write_auth_error-lacks :
    (status : ℕ) (code message : Text)
    → contains (message_of (write_auth_error status code message)) (text "sk-") ≡ false
unfolding write_auth_error
write_auth_error-lacks status code message = ground (arith, literal-lacks)

take_eight : (s t : Text) → length s ≡ 8 → take 8 (s ++ t) ≡ s
take_eight s t h = subst (λ n. take n (s ++ t) ≡ s) h (take-append_self s t)

-- A masked key shows eight bytes at most: keys of eight bytes or more that agree on the first eight
-- are masked alike, and shorter keys are not shown.
pub mask_key-append :
    (shown rest other : Text)
    → length shown ≡ 8
    → mask_key (shown ++ rest) ≡ mask_key (shown ++ other)
unfolding mask_key
mask_key-append shown rest other h = ground (
  arith,
  h,
  length-append shown rest,
  length-append shown other,
  take_eight shown rest h,
  take_eight shown other h,
)

Verdict-cases :
    (v : Verdict) → ((ctx : KeyContext) × (v ≡ granted ctx)) ⊎ ((e : AuthError) × (v ≡ denied e))
Verdict-cases (granted ctx) = inl (ctx, refl)
Verdict-cases (denied e) = inr (e, refl)

-- A request that the middleware serves through a handler carried a key that was granted an active
-- context, and the handler ran with that context: any other request gets an error, and nothing but
-- the store of Redis changes.
pub auth_middleware_cases :
    (redis : Redis) (json : Json)
    (next : Request → Option KeyContext → World redis → Response × World redis) (r : Request)
    (w : World redis)
    → (is_error (auth_middleware redis json next r w).0 ≡ false)
    → (ctx : KeyContext) × (is_active ctx ≡ true)
      × ((validate_api_key redis json r.api_key w.store).0 ≡ granted ctx)
      × (auth_middleware redis json next r w
          ≡ next r
              (some ctx)
              (record w { store = (validate_api_key redis json r.api_key w.store).1 }))
unfolding auth_middleware write_auth_error
auth_middleware_cases redis json next r w h =
    elim (Verdict-cases (validate_api_key redis json r.api_key w.store).0) [
      | inl (ctx, e) ↦
          (ctx, validate-is_active redis json r.api_key w.store ctx e, e, ground (arith, e, h))
      | inr (err, e) ↦ ground (arith, e, h)
    ]

-- An error of the middleware is its own, which leaves the publications alone, or the handler's.
pub published-auth_middleware :
    (redis : Redis) (json : Json)
    (next : Request → Option KeyContext → World redis → Response × World redis) (r : Request)
    (w : World redis)
    → ((kc : Option KeyContext) (v : World redis)
        → is_error (next r kc v).0 ≡ true
        → (next r kc v).1.published ≡ v.published)
    → is_error (auth_middleware redis json next r w).0 ≡ true
    → (auth_middleware redis json next r w).1.published ≡ w.published
unfolding auth_middleware
published-auth_middleware redis json next r w keeps bad =
    elim (Verdict-cases (validate_api_key redis json r.api_key w.store).0) [
      | inl (ctx, e) ↦ ground (
        arith,
        e,
        keeps (some ctx) (record w { store = (validate_api_key redis json r.api_key w.store).1 }),
      )
      | inr (err, e) ↦ ground (arith, e)
    ]
