-- ===== src/Ingest/Complete.antt =====
-- What a request to POST /v1/events has to meet to be accepted.
use quantumbilling.Common.{
  ◌++◌, ◌≡◌, ◌≢◌, ◌≤◌, ◌⊎◌, ◌∙◌, sym, ap, subst, Text, text, text_eq_refl, true, none, some, arith,
  length, length-append, is_empty,
}
use quantumbilling.Models.{UsageEvent, KeyContext, Fresh, enrich, validate, default_max_body_size}
use quantumbilling.Models.Codec.{Json}
use quantumbilling.Platform.Redis.{Redis, RedisLaws}
use quantumbilling.Platform.Postgres.{org_exists, end_user_in_org}
use quantumbilling.Http.{Request, event_accepted, World, post}
use quantumbilling.Ingest.{
  IngestHandler, idem_key, serialize_and_publish, check_end_user, check_org, claim, admit,
  handle_single_event,
}
use quantumbilling.Ingest.Verify.{
  org_key, end_user_key, verify_key, verify_org, verify_end_user, verify_key_iff,
  held-verify_key_ne, live-verify_key,
}
use quantumbilling.Ingest.Rollback.{org_key-ne-idem_key, end_user_key-ne-idem_key}
use quantumbilling.Ingest.Once.Claims.{after_set_nx, live-after, claim_fresh}

-- An organization's key is no key of its end users.
org_key-ne-end_user_key : (o u : Text) → org_key o ≢ end_user_key o u
unfolding text
org_key-ne-end_user_key o u p = omega (
  arith,
  ap length p,
  length-append (text "org:") o,
  length-append (text "org:") (o ++ (text ":enduser:" ++ u)),
  length-append o (text ":enduser:" ++ u),
  length-append (text ":enduser:") u,
)

module _ (redis : Redis) (laws : RedisLaws redis) (json : Json) (h : IngestHandler) where
  open laws use {held, live}

  -- The organization is cached or in Postgres.
  abbrev pub KnowsOrg : UsageEvent → redis.Store → Type 0
  KnowsOrg e s = (held s (org_key e.org_id) ≢ none) ⊎ (org_exists h.pg e.org_id ≡ some true)

  -- So is the end user, or there is none.
  abbrev pub KnowsEndUser : UsageEvent → redis.Store → Type 0
  KnowsEndUser e s =
      (is_empty e.end_user_id ≡ true)
      ⊎ ((held s (end_user_key e.org_id e.end_user_id) ≢ none)
          ⊎ (end_user_in_org h.pg e.org_id e.end_user_id ≡ some true))

  module _ (e : UsageEvent) (msg : Text) (encodes : json.marshal_event e ≡ some msg) where
    serialize_accepts :
        (w : World redis) → (serialize_and_publish redis json h e w).0 ≡ event_accepted e.event_id
    unfolding serialize_and_publish
    serialize_accepts w = ground (arith, encodes)

    end_user_accepts :
        (w : World redis)
        → live w.store ≡ true
        → KnowsEndUser e w.store
        → (check_end_user redis json h e w).0 ≡ event_accepted e.event_id
    unfolding check_end_user verify_end_user
    end_user_accepts w up known =
        let k = end_user_key e.org_id e.end_user_id in
        let answer = end_user_in_org h.pg e.org_id e.end_user_id in
        ground (
          arith,
          verify_key_iff redis laws answer k w.store up,
          serialize_accepts w,
          serialize_accepts (record w { store = (verify_key redis answer k w.store).1 }),
        )

    org_accepts :
        (w : World redis)
        → live w.store ≡ true
        → KnowsOrg e w.store
        → KnowsEndUser e w.store
        → (check_org redis json h e w).0 ≡ event_accepted e.event_id
    unfolding check_org verify_org
    org_accepts w up org user =
        let k = org_key e.org_id in
        let answer = org_exists h.pg e.org_id in
        let s = (verify_key redis answer k w.store).1 in
        let same =
          held-verify_key_ne redis laws answer k w.store (end_user_key e.org_id e.end_user_id)
            (org_key-ne-end_user_key e.org_id e.end_user_id) in
        let user' : KnowsEndUser e s =
          subst
            (λ o.
              (is_empty e.end_user_id ≡ true)
              ⊎ ((o ≢ none) ⊎ (end_user_in_org h.pg e.org_id e.end_user_id ≡ some true)))
            (sym same) user in
        ground (
          arith,
          verify_key_iff redis laws answer k w.store up,
          end_user_accepts (record w { store = s })
              (live-verify_key redis laws answer k w.store ∙ up) user',
        )

    claim_accepts :
        (w : World redis)
        → live w.store ≡ true
        → held w.store (idem_key e) ≡ none
        → KnowsOrg e w.store
        → KnowsEndUser e w.store
        → (claim redis json h e w).0 ≡ event_accepted e.event_id
    claim_accepts w up free org user =
        let s = after_set_nx redis laws json h e w up in
        let same : (k : Text) → idem_key e ≢ k → held s k ≡ held w.store k =
          λ k. laws.held-set_nx_ne (idem_key e) k (text "1") h.idempotency_ttl w.store in
        let same_org = same (org_key e.org_id) (λ q. org_key-ne-idem_key e.org_id e (sym q)) in
        let same_user =
          same (end_user_key e.org_id e.end_user_id)
            (λ q. end_user_key-ne-idem_key e.org_id e.end_user_id e (sym q)) in
        ap (λ o. o.0) (claim_fresh redis laws json h e w up free).0
        ∙ org_accepts (record w { store = s }) (live-after redis laws json h e w up)
            (subst (λ o. (o ≢ none) ⊎ (org_exists h.pg e.org_id ≡ some true)) (sym same_org) org)
            (subst
              (λ o.
                (is_empty e.end_user_id ≡ true)
                ⊎ ((o ≢ none) ⊎ (end_user_in_org h.pg e.org_id e.end_user_id ≡ some true)))
              (sym same_user) user)

  -- What the handler asks of a request, whose event is enriched to `e`.
  pub record Acceptable (r : Request) (e : UsageEvent) (s : redis.Store) : Type 0 where
    pub method : r.method ≡ post
    pub content : (is_empty r.content_type ≡ true) ⊎ (r.content_type ≡ text "application/json")
    pub size : length r.body ≤ default_max_body_size
    pub valid : validate e ≡ none
    pub free : held s (idem_key e) ≡ none
    pub org : KnowsOrg e s
    pub user : KnowsEndUser e s
    pub message : Text
    pub encodes : json.marshal_event e ≡ some message

  pub handle_accepts :
      (fresh : Fresh) (r : Request) (kc : KeyContext) (w : World redis) (e : UsageEvent)
      → live w.store ≡ true
      → json.unmarshal_event r.body ≡ some e
      → Acceptable r (enrich kc fresh e) w.store
      → (handle_single_event redis json h fresh r (some kc) w).0
        ≡ event_accepted (enrich kc fresh e).event_id
  unfolding handle_single_event admit
  handle_accepts fresh r kc w e up body a = ground (
    arith,
    body,
    a.method,
    a.content,
    a.size,
    a.valid,
    text_eq_refl post,
    text_eq_refl (text "application/json"),
    claim_accepts (enrich kc fresh e) a.message a.encodes w up a.free a.org a.user,
  )
