-- ===== src/Ingest/Once/Claims.antt =====
-- What claiming an event's idempotency key leaves in Redis, whatever the checks after it answer.
use quantumbilling.Common.{
  ◌≡◌, ◌≢◌, refl, ◌∙◌, ◌++◌, Text, text, text_eq_iff, true, none, some, arith, Option-cases, inl,
  inr,
}
use quantumbilling.Models.{UsageEvent, validate}
use quantumbilling.Models.Codec.{Json}
use quantumbilling.Platform.Redis.{Redis, RedisLaws}
use quantumbilling.Http.{error, event_accepted, World}
use quantumbilling.Ingest.{IngestHandler, idem_key, check_org, claimed, claim, admit}
use quantumbilling.Ingest.Rollback.{is_error, held-org, live-org}

module _ (redis : Redis) (laws : RedisLaws redis) (json : Json) (h : IngestHandler) where
  open laws use {held, live}

  module _ (e : UsageEvent) (w : World redis) (up : live w.store ≡ true) where
    -- What SETNX leaves, and its reply.
    abbrev pub after_set_nx : redis.Store
    after_set_nx = (redis.set_nx (idem_key e) (text "1") h.idempotency_ttl w.store).1

    pub live-after : live after_set_nx ≡ true
    live-after = laws.live-set_nx (idem_key e) (text "1") h.idempotency_ttl w.store ∙ up

    -- A free key is claimed, and the handler goes on.
    pub claim_fresh :
        held w.store (idem_key e) ≡ none
        → (claim redis json h e w ≡ check_org redis json h e (record w { store = after_set_nx }))
          × (held after_set_nx (idem_key e) ≡ some (text "1"))
    unfolding claim claimed
    claim_fresh free =
        let (r, kept) =
          laws.set_nx_fresh (idem_key e) (text "1") h.idempotency_ttl w.store up free in
        (rw r refl, kept)

    -- A key that is held stays, and the request is a duplicate.
    claim_taken :
        (v : Text)
        → held w.store (idem_key e) ≡ some v
        → (claim redis json h e w ≡ (
          error 409
              (text "DUPLICATE_EVENT")
              (text "event " ++ (e.event_id ++ text " already processed")),
          record w { store = after_set_nx },
        ))
          × (held after_set_nx (idem_key e) ≡ some v)
    unfolding claim claimed
    claim_taken v taken =
        let (r, kept) =
          laws.set_nx_taken (idem_key e) (text "1") v h.idempotency_ttl w.store up taken in
        (rw r refl, kept)

    others :
        (d : UsageEvent)
        → idem_key e ≢ idem_key d
        → held after_set_nx (idem_key d) ≡ held w.store (idem_key d)
    others d = laws.held-set_nx_ne (idem_key e) (idem_key d) (text "1") h.idempotency_ttl w.store

    -- A refused event leaves every claim as it was.
    held-claim_refused :
        (d : UsageEvent)
        → is_error (claim redis json h e w).0 ≡ true
        → held (claim redis json h e w).1.store (idem_key d) ≡ held w.store (idem_key d)
    held-claim_refused d bad = elim (Option-cases (held w.store (idem_key e))) [
      | inl free ↦
          let (run, kept) = claim_fresh free in
          ground (
            arith,
            run,
            kept,
            free,
            held-org redis laws json h e d (record w { store = after_set_nx }) live-after,
            text_eq_iff (idem_key e) (idem_key d),
            others d,
          )
      | inr (v, taken) ↦
          let (run, kept) = claim_taken v taken in
          ground (arith, run, kept, taken, text_eq_iff (idem_key e) (idem_key d), others d)
    ]

    -- An accepted event is claimed.
    held-claim_accepted :
        (id : Text)
        → (claim redis json h e w).0 ≡ event_accepted id
        → held (claim redis json h e w).1.store (idem_key e) ≡ some (text "1")
    held-claim_accepted id q = elim (Option-cases (held w.store (idem_key e))) [
      | inl free ↦
          let (run, kept) = claim_fresh free in
          ground (
            arith,
            run,
            kept,
            held-org redis laws json h e e (record w { store = after_set_nx }) live-after,
          )
      | inr (v, taken) ↦ let (run, kept) = claim_taken v taken in ground (arith, run)
    ]

    -- A key that an accepted event has claimed was free before.
    claim_accepted_free :
        (id : Text)
        → (claim redis json h e w).0 ≡ event_accepted id
        → held w.store (idem_key e) ≡ none
    claim_accepted_free id q = elim (Option-cases (held w.store (idem_key e))) [
      | inl free ↦ free
      | inr (v, taken) ↦ let (run, kept) = claim_taken v taken in ground (arith, run)
    ]

    -- Whatever the reply, the claims on other keys stay.
    held-claim_other :
        (d : UsageEvent)
        → idem_key e ≢ idem_key d
        → held (claim redis json h e w).1.store (idem_key d) ≡ held w.store (idem_key d)
    held-claim_other d apart = elim (Option-cases (held w.store (idem_key e))) [
      | inl free ↦
          let (run, kept) = claim_fresh free in
          ground (
            arith,
            run,
            held-org redis laws json h e d (record w { store = after_set_nx }) live-after,
            text_eq_iff (idem_key e) (idem_key d),
            others d apart,
          )
      | inr (v, taken) ↦
          let (run, kept) = claim_taken v taken in ground (arith, run, others d apart)
    ]

    live-claim : live (claim redis json h e w).1.store ≡ true
    live-claim = elim (Option-cases (held w.store (idem_key e))) [
      | inl free ↦
          let (run, kept) = claim_fresh free in
          ground (
            arith,
            run,
            live-after,
            live-org redis laws json h e e (record w { store = after_set_nx }),
          )
      | inr (v, taken) ↦ let (run, kept) = claim_taken v taken in ground (arith, run, live-after)
    ]

    pub held-admit_refused :
        (d : UsageEvent)
        → is_error (admit redis json h e w).0 ≡ true
        → held (admit redis json h e w).1.store (idem_key d) ≡ held w.store (idem_key d)
    unfolding admit
    held-admit_refused d bad = ground (arith, held-claim_refused d)

    -- An accepted event is claimed, and the server still answers.
    pub admit_accepted :
        (id : Text)
        → (admit redis json h e w).0 ≡ event_accepted id
        → (validate e ≡ none)
          × (held (admit redis json h e w).1.store (idem_key e) ≡ some (text "1"))
          × (live (admit redis json h e w).1.store ≡ true)
    unfolding admit
    admit_accepted id q = ground (arith, held-claim_accepted id, live-claim)

    pub live-admit : live (admit redis json h e w).1.store ≡ true
    unfolding admit
    live-admit = ground (arith, live-claim, up)

    pub admit_accepted_free :
        (id : Text)
        → (admit redis json h e w).0 ≡ event_accepted id
        → held w.store (idem_key e) ≡ none
    unfolding admit
    admit_accepted_free id q = ground (arith, claim_accepted_free id)

    pub held-admit_other :
        (d : UsageEvent)
        → idem_key e ≢ idem_key d
        → held (admit redis json h e w).1.store (idem_key d) ≡ held w.store (idem_key d)
    unfolding admit
    held-admit_other d apart = ground (arith, held-claim_other d apart)

    -- A valid event whose key is held is a duplicate.
    pub admit_taken :
        (v : Text)
        → validate e ≡ none
        → held w.store (idem_key e) ≡ some v
        → (admit redis json h e w).0
          ≡ error 409
              (text "DUPLICATE_EVENT")
              (text "event " ++ (e.event_id ++ text " already processed"))
    unfolding admit
    admit_taken v ok taken = ground (arith, ok, (claim_taken v taken).0)
