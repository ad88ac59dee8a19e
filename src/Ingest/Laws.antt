-- ===== src/Ingest/Laws.antt =====
-- What the single-event handler answers, and what it hands to Kafka.
use quantumbilling.Common.{
  ◌≡◌, List, [], ◌∷◌, ◌++◌, Text, Bool, true, false, Option, none, some, arith, Option-cases, inl,
  inr, append-nil, sym, Option-cases, inl, inr,
}
use quantumbilling.Models.{UsageEvent, validate}
use quantumbilling.Models.Codec.{Json}
use quantumbilling.Platform.Redis.{Redis, Reply, reply, unavailable}
use quantumbilling.Http.{Response, error, event_accepted, batch_accepted, World, Publication}
use quantumbilling.Ingest.Verify.{verify_org, verify_end_user}
use quantumbilling.Ingest.{
  IngestHandler, serialize_and_publish, check_end_user, check_org, claimed, claim, admit,
}

-- What a reply about an event, encoded as `o`, adds to the publications.
abbrev pub handed_by : Response → Bool → Option Text → UsageEvent → List Publication
handed_by (error status code message) publish o e = []
handed_by (batch_accepted accepted failed) publish o e = []
handed_by (event_accepted id) true (some msg) e =
    record { messages = msg ∷ []; partition_key = e.org_id } ∷ []
handed_by (event_accepted id) publish o e = []

module _ (redis : Redis) (json : Json) (h : IngestHandler) where
  -- The publications after a stage.
  abbrev handed : UsageEvent → World redis → Response → List Publication
  handed e w r = w.published ++ handed_by r h.publish (json.marshal_event e) e

  -- The reply carries the identifier of the event, which was encoded.
  abbrev Named : UsageEvent → Text → Type 0
  Named e id = (id ≡ e.event_id) × ((msg : Text) × (json.marshal_event e ≡ some msg))

  module _ (e : UsageEvent) where
    published-serialize :
        (w : World redis)
        → (serialize_and_publish redis json h e w).1.published
          ≡ handed e w (serialize_and_publish redis json h e w).0
    unfolding serialize_and_publish
    published-serialize w = ground (arith, append-nil w.published)

    published-end_user :
        (w : World redis)
        → (check_end_user redis json h e w).1.published
          ≡ handed e w (check_end_user redis json h e w).0
    unfolding check_end_user
    published-end_user w = ground (
      arith,
      append-nil w.published,
      published-serialize w,
      published-serialize
          (record w { store = (verify_end_user redis h.pg e.org_id e.end_user_id w.store).1 }),
    )

    published-org :
        (w : World redis)
        → (check_org redis json h e w).1.published ≡ handed e w (check_org redis json h e w).0
    unfolding check_org
    published-org w = ground (
      arith,
      append-nil w.published,
      published-end_user (record w { store = (verify_org redis h.pg e.org_id w.store).1 }),
    )

    published-claimed :
        (r : Reply Bool) (w : World redis)
        → (claimed redis json h e r w).1.published ≡ handed e w (claimed redis json h e r w).0
    unfolding claimed
    published-claimed unavailable w = sym (append-nil w.published)
    published-claimed (reply false) w = sym (append-nil w.published)
    published-claimed (reply true) w = published-org w

    published-claim :
        (w : World redis)
        → (claim redis json h e w).1.published ≡ handed e w (claim redis json h e w).0
    unfolding claim
    published-claim w = published-claimed _ _

    -- An admitted event adds its encoding if it is accepted, and nothing otherwise.
    pub published-admit :
        (w : World redis)
        → (admit redis json h e w).1.published ≡ handed e w (admit redis json h e w).0
    unfolding admit
    published-admit w = ground (arith, append-nil w.published, published-claim w)

    -- An accepting stage names the event in its reply.
    serialize-id :
        (w : World redis) (id : Text)
        → (serialize_and_publish redis json h e w).0 ≡ event_accepted id
        → Named e id
    unfolding serialize_and_publish
    serialize-id w id q = ground arith

    end_user-id :
        (w : World redis) (id : Text)
        → (check_end_user redis json h e w).0 ≡ event_accepted id
        → Named e id
    unfolding check_end_user
    end_user-id w id q = ground (
      arith,
      serialize-id w id,
      serialize-id
          (record w { store = (verify_end_user redis h.pg e.org_id e.end_user_id w.store).1 }) id,
    )

    org-id :
        (w : World redis) (id : Text)
        → (check_org redis json h e w).0 ≡ event_accepted id
        → Named e id
    unfolding check_org
    org-id w id q =
        ground
          (arith, end_user-id (record w { store = (verify_org redis h.pg e.org_id w.store).1 }) id)

    claimed-id :
        (r : Reply Bool) (w : World redis) (id : Text)
        → (claimed redis json h e r w).0 ≡ event_accepted id
        → Named e id
    unfolding claimed
    claimed-id unavailable w id q = cc
    claimed-id (reply false) w id q = cc
    claimed-id (reply true) w id q = org-id w id q

    -- An accepted event has passed validation.
    pub admit-id :
        (w : World redis) (id : Text)
        → (admit redis json h e w).0 ≡ event_accepted id
        → (validate e ≡ none) × Named e id
    unfolding admit claim
    admit-id w id q = elim (Option-cases (validate e)) [
      | inl p ↦ (p, claimed-id _ _ id (rw (p, admit) at q))
      | inr (m, p) ↦ cc (rw (p, admit) at q)
    ]
