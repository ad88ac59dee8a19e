-- ===== src/Ingest/Rollback.antt =====
-- What the single-event handler leaves of its idempotency claims.
use quantumbilling.Common.{
  ℕ, ◌≡◌, ◌≢◌, ◌∙◌, [], ◌∷◌, Text, text, text_eq, text_eq_iff, Bool, true, false, ◌&&◌, Option,
  none, arith, if◌then◌else◌, inl, inr, Bool-cases, ap,
}
use quantumbilling.Models.{UsageEvent}
use quantumbilling.Models.Codec.{Json}
use quantumbilling.Platform.Redis.{Redis, RedisLaws}
use quantumbilling.Platform.Postgres.{org_exists, end_user_in_org}
use quantumbilling.Http.{Response, error, event_accepted, batch_accepted, World}
use quantumbilling.Ingest.Verify.{
  org_key, end_user_key, verify_key, verify_org, verify_end_user, held-verify_key_ne,
  live-verify_key,
}
use quantumbilling.Ingest.{
  IngestHandler, idem_key, serialize_and_publish, check_end_user, check_org,
}

abbrev pub is_error : Response → Bool
is_error (error status code message) = true
is_error (event_accepted id) = false
is_error (batch_accepted accepted failed) = false

abbrev initial : Text → ℕ
initial [] = 0
initial (c ∷ s) = c

-- The cached existence keys are no idempotency keys.
pub org_key-ne-idem_key : (o : Text) (e : UsageEvent) → org_key o ≢ idem_key e
unfolding text
org_key-ne-idem_key o e p = omega (arith, ap initial p)

pub end_user_key-ne-idem_key : (o u : Text) (e : UsageEvent) → end_user_key o u ≢ idem_key e
unfolding text
end_user_key-ne-idem_key o u e p = omega (arith, ap initial p)

module _ (redis : Redis) (laws : RedisLaws redis) where
  open laws use {held, live}

  pub held-del :
      (k j : Text) (s : redis.Store)
      → live s ≡ true
      → held (redis.del k s) j ≡ (if text_eq k j then none else held s j)
  held-del k j s up = elim (Bool-cases (text_eq k j)) [
    | inl p ↦ ground (arith, laws.held-del_self k s up, text_eq_iff k j)
    | inr p ↦ rw p (laws.held-del_ne k j s (λ q. ground (arith, text_eq_iff k j)))
  ]

module _ (redis : Redis) (laws : RedisLaws redis) (json : Json) (h : IngestHandler)
    (e d : UsageEvent) where
  open laws use {held, live}

  -- The claim on `d` after a stage that works on `e`, which holds its own claim.
  abbrev pub claim_left : Response → redis.Store → Option Text
  claim_left r s =
      if is_error r && text_eq (idem_key e) (idem_key d) then none else held s (idem_key d)

  held-serialize :
      (w : World redis)
      → live w.store ≡ true
      → held (serialize_and_publish redis json h e w).1.store (idem_key d)
        ≡ claim_left (serialize_and_publish redis json h e w).0 w.store
  unfolding serialize_and_publish
  held-serialize w up = ground (arith, held-del redis laws (idem_key e) (idem_key d) w.store up)

  held-end_user :
      (w : World redis)
      → live w.store ≡ true
      → held (check_end_user redis json h e w).1.store (idem_key d)
        ≡ claim_left (check_end_user redis json h e w).0 w.store
  unfolding check_end_user verify_end_user
  held-end_user w up =
      let k = end_user_key e.org_id e.end_user_id in
      let answer = end_user_in_org h.pg e.org_id e.end_user_id in
      let s = (verify_key redis answer k w.store).1 in
      let same =
        held-verify_key_ne redis laws answer k w.store (idem_key d)
          (end_user_key-ne-idem_key _ _ d) in
      let up' : live s ≡ true = live-verify_key redis laws answer k w.store ∙ up in
      ground (
        arith,
        same,
        held-del redis laws (idem_key e) (idem_key d) s up',
        held-serialize w up,
        held-serialize (record w { store = s }) up',
      )

  pub held-org :
      (w : World redis)
      → live w.store ≡ true
      → held (check_org redis json h e w).1.store (idem_key d)
        ≡ claim_left (check_org redis json h e w).0 w.store
  unfolding check_org verify_org
  held-org w up =
      let k = org_key e.org_id in
      let answer = org_exists h.pg e.org_id in
      let s = (verify_key redis answer k w.store).1 in
      let same =
        held-verify_key_ne redis laws answer k w.store (idem_key d) (org_key-ne-idem_key _ d) in
      let up' : live s ≡ true = live-verify_key redis laws answer k w.store ∙ up in
      ground (
        arith,
        same,
        held-del redis laws (idem_key e) (idem_key d) s up',
        held-end_user (record w { store = s }) up',
      )

  live-serialize :
      (w : World redis) → live (serialize_and_publish redis json h e w).1.store ≡ live w.store
  unfolding serialize_and_publish
  live-serialize w = ground (arith, laws.live-del (idem_key e) w.store)

  live-end_user : (w : World redis) → live (check_end_user redis json h e w).1.store ≡ live w.store
  unfolding check_end_user verify_end_user
  live-end_user w =
      let k = end_user_key e.org_id e.end_user_id in
      let answer = end_user_in_org h.pg e.org_id e.end_user_id in
      let s = (verify_key redis answer k w.store).1 in
      ground (
        arith,
        live-verify_key redis laws answer k w.store,
        laws.live-del (idem_key e) s,
        live-serialize w,
        live-serialize (record w { store = s }),
      )

  pub live-org : (w : World redis) → live (check_org redis json h e w).1.store ≡ live w.store
  unfolding check_org verify_org
  live-org w =
      let k = org_key e.org_id in
      let answer = org_exists h.pg e.org_id in
      let s = (verify_key redis answer k w.store).1 in
      ground (
        arith,
        live-verify_key redis laws answer k w.store,
        laws.live-del (idem_key e) s,
        live-end_user (record w { store = s }),
      )
