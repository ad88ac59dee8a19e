-- ===== src/Ingest/Once.antt =====
-- The idempotency claims of the single-event handler over a request, and over a repeated one.
pub mod Claims
use quantumbilling.Common.{
  ◌≡◌, ◌≢◌, refl, sym, ◌∙◌, ap, [], ◌++◌, Text, text, text_eq_iff, true, Option, none, some, arith,
  Option-cases, inl, inr,
}
use quantumbilling.Models.{UsageEvent, KeyContext, Fresh, validate, enrich}
use quantumbilling.Ingest.Once.Claims.{held-admit_refused, admit_accepted, admit_taken}
use quantumbilling.Models.Codec.{Json}
use quantumbilling.Models.Laws.{validate-enrich}
use quantumbilling.Ingest.Laws.{admit-id}
use quantumbilling.Platform.Redis.{Redis, RedisLaws}
use quantumbilling.Http.{Request, Response, error, event_accepted, World}
use quantumbilling.Ingest.{
  IngestHandler, idem_key, check_org, claimed, claim, admit, handle_single_event,
}
use quantumbilling.Ingest.Accepted.{handle-Passed}
use quantumbilling.Ingest.Rollback.{is_error, held-org, live-org}

module _ (redis : Redis) (laws : RedisLaws redis) (json : Json) (h : IngestHandler) where
  open laws use {held, live}

  -- While Redis answers, a refused request leaves every idempotency claim as it was: what it claimed
  -- itself is taken back, whichever check refuses it.
  pub handle-keeps_claims :
      (fresh : Fresh) (r : Request) (kc : Option KeyContext) (w : World redis) (d : UsageEvent)
      → live w.store ≡ true
      → is_error (handle_single_event redis json h fresh r kc w).0 ≡ true
      → held (handle_single_event redis json h fresh r kc w).1.store (idem_key d)
        ≡ held w.store (idem_key d)
  unfolding handle_single_event
  handle-keeps_claims fresh r none w d up bad = ground arith
  handle-keeps_claims fresh r (some kc) w d up bad =
      elim (Option-cases (json.unmarshal_event r.body)) [
        | inl p ↦ ground arith
        | inr (e, p) ↦
            ground (arith, held-admit_refused redis laws json h (enrich kc fresh e) w up d)
      ]

  abbrev pub duplicate : Text → Response
  duplicate id =
      error 409 (text "DUPLICATE_EVENT") (text "event " ++ (id ++ text " already processed"))

  -- The identifier of an event that has one survives every enrichment.
  enriched :
      (c : KeyContext) (f : Fresh) (e : UsageEvent)
      → e.event_id ≢ []
      → (enrich c f e).event_id ≡ e.event_id
  unfolding enrich
  enriched c f e named = ground arith

  enriched_key :
      (c : KeyContext) (f g : Fresh) (e : UsageEvent)
      → e.event_id ≢ []
      → idem_key (enrich c f e) ≡ idem_key (enrich c g e)
  unfolding enrich
  enriched_key c f g e named = ground arith

  admit_again :
      (c : KeyContext) (f g : Fresh) (e : UsageEvent) (w : World redis) (id : Text)
      → live w.store ≡ true
      → e.event_id ≢ []
      → (admit redis json h (enrich c f e) w).0 ≡ event_accepted id
      → (admit redis json h (enrich c g e) (admit redis json h (enrich c f e) w).1).0 ≡ duplicate id
  admit_again c f g e w id up named q =
      let (ok, kept, up') = admit_accepted redis laws json h (enrich c f e) w up id q in
      let same_id : id ≡ (enrich c g e).event_id =
        (admit-id redis json h (enrich c f e) w id q).1.0
        ∙ enriched c f e named
        ∙ sym (enriched c g e named) in
      let again =
        admit_taken redis laws json h (enrich c g e) (admit redis json h (enrich c f e) w).1 up'
          (text "1") (validate-enrich c g e ∙ sym (validate-enrich c f e) ∙ ok)
          (rw (enriched_key c g f e named) kept) in
      again ∙ ap duplicate (sym same_id)

  -- While Redis answers, a request whose event carries its own identifier and that was accepted is
  -- answered with 409 when it is sent again, whatever the clock and the random source give then.
  pub handle_again :
      (fresh fresh' : Fresh) (r : Request) (kc : Option KeyContext) (w : World redis) (id : Text)
      (e : UsageEvent)
      → live w.store ≡ true
      → json.unmarshal_event r.body ≡ some e
      → e.event_id ≢ []
      → (handle_single_event redis json h fresh r kc w).0 ≡ event_accepted id
      → (handle_single_event redis json h fresh' r kc
          (handle_single_event redis json h fresh r kc w).1).0
        ≡ duplicate id
  handle_again fresh fresh' r kc w id e up body named q =
      let p = handle-Passed redis json h fresh r kc w id q in
      let same : p.parsed ≡ e = cc (sym p.body ∙ body) in
      let q' : (admit redis json h (enrich p.context fresh p.parsed) w).0 ≡ event_accepted id =
        ap (λ (o : Response × World redis). o.0) (sym (p.run w fresh)) ∙ q in
      let first = ap (λ (o : Response × World redis). o.1) (p.run w fresh) in
      rw first (
        ap (λ (o : Response × World redis). o.0) (p.run _ fresh')
        ∙ admit_again p.context fresh fresh' p.parsed w id up (rw same named) q')
