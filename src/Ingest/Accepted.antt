-- ===== src/Ingest/Accepted.antt =====
-- What stands behind the replies of the single-event handler.
use quantumbilling.Common.{
  ℕ, ◌≤◌, ◌≡◌, refl, List, [], ◌∷◌, ◌++◌, Text, Bool, Option, none, some, arith, length,
  Option-cases, inl, inr, ap, append-nil, sym, ◌∙◌, if◌then◌else◌,
}
use quantumbilling.Models.{UsageEvent, KeyContext, Fresh, enrich, default_max_body_size}
use quantumbilling.Models.Codec.{Json}
use quantumbilling.Models.Laws.{IsValid, IsScoped, validate_iff, enrich-IsScoped}
use quantumbilling.Platform.Redis.{Redis}
use quantumbilling.Http.{Request, Response, error, event_accepted, World, Publication}
use quantumbilling.Ingest.{IngestHandler, admit, handle_single_event}
use quantumbilling.Ingest.Laws.{published-admit, admit-id}

-- The publication of one event, if there is a publish function.
abbrev pub publication : Bool → Text → UsageEvent → List Publication
publication publish msg e =
    if publish then record { messages = msg ∷ []; partition_key = e.org_id } ∷ [] else []

module _ (redis : Redis) (json : Json) (h : IngestHandler) where
  -- The guards in front of `admit` that a request passes.
  pub record Passed (r : Request) (kc : Option KeyContext) : Type 0 where
    pub context : KeyContext
    pub parsed : UsageEvent
    pub given : kc ≡ some context
    pub body : json.unmarshal_event r.body ≡ some parsed
    pub size : length r.body ≤ default_max_body_size
    -- from there on the handler is `admit` of the enriched event
    pub run :
        (w : World redis) (fresh : Fresh)
        → handle_single_event redis json h fresh r kc w
          ≡ admit redis json h (enrich context fresh parsed) w

  pub handle-Passed :
      (fresh : Fresh) (r : Request) (kc : Option KeyContext) (w : World redis) (id : Text)
      → (handle_single_event redis json h fresh r kc w).0 ≡ event_accepted id
      → Passed r kc
  unfolding handle_single_event
  handle-Passed fresh r none w id q = absurd (ground arith)
  handle-Passed fresh r (some kc) w id q = elim (Option-cases (json.unmarshal_event r.body)) [
    | inl p ↦ absurd (ground arith)
    | inr (e, p) ↦ record {
      context = kc;
      parsed = e;
      given = refl;
      body = p;
      size = ground arith;
      run = λ v g. ground arith;
    }
  ]

  -- A request that is refused hands nothing to Kafka.
  pub published-handle_refused :
      (fresh : Fresh) (r : Request) (kc : Option KeyContext) (w : World redis) (status : ℕ)
      (code message : Text)
      → (handle_single_event redis json h fresh r kc w).0 ≡ error status code message
      → (handle_single_event redis json h fresh r kc w).1.published ≡ w.published
  unfolding handle_single_event
  published-handle_refused fresh r none w status code message q = ground arith
  published-handle_refused fresh r (some kc) w status code message q =
      elim (Option-cases (json.unmarshal_event r.body)) [
        | inl p ↦ ground arith
        | inr (e, p) ↦
            ground
              (arith, append-nil w.published, published-admit redis json h (enrich kc fresh e) w)
      ]

  pub record Accepted (fresh : Fresh) (r : Request) (kc : Option KeyContext) (w : World redis)
      (id : Text) : Type 0 where
    pub context : KeyContext
    pub given : kc ≡ some context
    pub parsed : UsageEvent
    pub body : json.unmarshal_event r.body ≡ some parsed
    pub size : length r.body ≤ default_max_body_size
    pub valid : IsValid (enrich context fresh parsed)
    pub scoped : IsScoped context (enrich context fresh parsed)
    pub named : id ≡ (enrich context fresh parsed).event_id
    pub message : Text
    pub encoded : json.marshal_event (enrich context fresh parsed) ≡ some message
    pub handed :
        (handle_single_event redis json h fresh r kc w).1.published
        ≡ w.published ++ publication h.publish message (enrich context fresh parsed)

  published-admit_accepted :
      (e : UsageEvent) (w : World redis) (msg id : Text)
      → (admit redis json h e w).0 ≡ event_accepted id
      → json.marshal_event e ≡ some msg
      → (admit redis json h e w).1.published ≡ w.published ++ publication h.publish msg e
  published-admit_accepted e w msg id q m = ground (arith, published-admit redis json h e w)

  -- The publication of an accepted request whose body and message are known.
  pub published-handle_accepted :
      (fresh : Fresh) (r : Request) (kc : KeyContext) (w : World redis) (id : Text) (e : UsageEvent)
      (msg : Text)
      → json.unmarshal_event r.body ≡ some e
      → json.marshal_event (enrich kc fresh e) ≡ some msg
      → (handle_single_event redis json h fresh r (some kc) w).0 ≡ event_accepted id
      → (handle_single_event redis json h fresh r (some kc) w).1.published
        ≡ w.published ++ publication h.publish msg (enrich kc fresh e)
  unfolding handle_single_event
  published-handle_accepted fresh r kc w id e msg body encoded q =
      ground (arith, body, published-admit_accepted (enrich kc fresh e) w msg id, encoded)

  -- What an accepted request stands for: the event of a body of at most 1 MB, enriched with the
  -- tenant, source and key of the authenticated context, valid, named in the reply, and handed to
  -- Kafka once, under the tenant's partition key, if a publish function is configured.
  pub handle-Accepted :
      (fresh : Fresh) (r : Request) (kc : Option KeyContext) (w : World redis) (id : Text)
      → (handle_single_event redis json h fresh r kc w).0 ≡ event_accepted id
      → Accepted fresh r kc w id
  handle-Accepted fresh r kc w id q =
      let p = handle-Passed fresh r kc w id q in
      let e = enrich p.context fresh p.parsed in
      let q' : (admit redis json h e w).0 ≡ event_accepted id =
        ap (λ (o : Response × World redis). o.0) (sym (p.run w fresh)) ∙ q in
      let (ok, about) = admit-id redis json h e w id q' in
      let (named, (msg, encoded)) = about in
      record {
        context = p.context;
        given = p.given;
        parsed = p.parsed;
        body = p.body;
        size = p.size;
        valid = (validate_iff e).0 ok;
        scoped = enrich-IsScoped p.context fresh p.parsed;
        named = named;
        message = msg;
        encoded = encoded;
        handed =
            ap (λ (o : Response × World redis). o.1.published) (p.run w fresh)
            ∙ published-admit_accepted e w msg id q' encoded;
      }
