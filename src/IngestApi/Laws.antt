-- ===== src/IngestApi/Laws.antt =====
-- What the replies of the whole server stand for.
use quantumbilling.Common.{
  ℕ, ◌≡◌, ◌∙◌, refl, sym, ap, Text, text, text_eq, text_eq_iff, Bool, true, false, Option, some,
  Bool-cases, inl, inr, arith, if◌then◌else◌,
}
use quantumbilling.Models.{KeyContext, Fresh, is_active}
use quantumbilling.Models.Codec.{Json}
use quantumbilling.Platform.Redis.{Redis}
use quantumbilling.Http.{Request, Response, error, event_accepted, batch_accepted, World}
use quantumbilling.Auth.{auth_middleware, validate_api_key, granted}
use quantumbilling.Auth.Laws.{auth_middleware_cases, published-auth_middleware}
use quantumbilling.Ingest.{IngestHandler, handle_single_event}
use quantumbilling.Ingest.Rollback.{is_error}
use quantumbilling.Ingest.Accepted.{Accepted, handle-Accepted, published-handle_refused}
use quantumbilling.Batch.Laws.{handle-IsBatchReply, published-handle_batch_refused}
use quantumbilling.Settings.{Os}
use quantumbilling.IngestApi.{Net, Answer, api, ready_handler, not_found, ingest_mux, route, serve}

-- What the answer is to its reader: events are taken in only with the two acceptances.
abbrev pub is_acceptance : Answer → Bool
is_acceptance (api (event_accepted id)) = true
is_acceptance (api (batch_accepted accepted failed)) = true
is_acceptance _ = false

abbrev reply_of : Answer → Response
reply_of (api reply) = reply
reply_of _ = not_found

error_reply :
    (x : Response)
    → is_error x ≡ true
    → (status : ℕ) × (code : Text) × (message : Text) × (x ≡ error status code message)
error_reply (error status code message) bad = (status, code, message, refl)
error_reply (event_accepted id) bad = absurd (ground arith)
error_reply (batch_accepted accepted failed) bad = absurd (ground arith)

module _ (redis : Redis) (json : Json) (h : IngestHandler) (os : Os) (net : Net) where
  accepted_route :
      (fresh : ℕ → Fresh) (path : Text) (r : Request) (w : World redis) (reply : Response)
      → is_error reply ≡ false
      → (serve redis json h os net fresh path r w).0 ≡ api reply
      → serve redis json h os net fresh path r w ≡ (
        api (auth_middleware redis json (ingest_mux redis json h fresh path) r w).0,
        (auth_middleware redis json (ingest_mux redis json h fresh path) r w).1,
      )
  unfolding serve route ready_handler
  accepted_route fresh path r w reply good q =
      ground (arith, q, good, text_eq_iff (net.clean_path path) path, text_eq_iff path path)

  mux_single :
      (fresh : ℕ → Fresh) (path : Text) (r : Request) (kc : Option KeyContext) (w : World redis)
      → path ≡ text "/v1/events"
      → ingest_mux redis json h fresh path r kc w
        ≡ handle_single_event redis json h (fresh 0) r kc w
  unfolding ingest_mux
  mux_single fresh path r kc w at_events = ground (arith, text_eq_iff path (text "/v1/events"))

  -- The path of a request that the inner mux accepts.
  mux_event :
      (fresh : ℕ → Fresh) (path : Text) (r : Request) (kc : Option KeyContext) (w : World redis)
      (id : Text)
      → (ingest_mux redis json h fresh path r kc w).0 ≡ event_accepted id
      → path ≡ text "/v1/events"
  unfolding ingest_mux
  mux_event fresh path r kc w id q =
      ground
        (arith, text_eq_iff path (text "/v1/events"), handle-IsBatchReply redis json h fresh r kc w)

  -- Behind the acceptance of an event.
  pub record EventServed (fresh : ℕ → Fresh) (path : Text) (r : Request) (w : World redis)
      (id : Text) : Type 0 where
    pub at : path ≡ text "/v1/events"
    pub context : KeyContext
    pub active : is_active context ≡ true
    pub store : redis.Store
    pub key : validate_api_key redis json r.api_key w.store ≡ (granted context, store)
    pub accepted : Accepted redis json h (fresh 0) r (some context) (record w { store = store }) id
    pub same : serve redis json h os net fresh path r w ≡ (
      api (event_accepted id),
      (handle_single_event redis json h (fresh 0) r (some context) (record w { store = store })).1,
    )

  -- The server accepts an event only at /v1/events, for a key that is granted an active context, and
  -- as the single-event handler does for that context: the event is valid, enriched with the
  -- tenant of the key, named in the reply, and handed to Kafka once under the tenant's partition
  -- key, if a publish function is configured.
  pub serve_accepted :
      (fresh : ℕ → Fresh) (path : Text) (r : Request) (w : World redis) (id : Text)
      → (serve redis json h os net fresh path r w).0 ≡ api (event_accepted id)
      → EventServed fresh path r w id
  serve_accepted fresh path r w id q =
      let at_api = accepted_route fresh path r w (event_accepted id) refl q in
      let replied : (auth_middleware redis json (ingest_mux redis json h fresh path) r w).0
          ≡ event_accepted id =
        ap reply_of (ap (λ o. o.0) (sym at_api) ∙ q) in
      let a =
        auth_middleware_cases redis json (ingest_mux redis json h fresh path) r w
          (ap is_error replied) in
      let s = (validate_api_key redis json r.api_key w.store).1 in
      let v = record w { store = s } in
      let in_mux = ap (λ o. o.0) (sym a.3) ∙ replied in
      let at = mux_event fresh path r (some a.0) v id in_mux in
      let run = mux_single fresh path r (some a.0) v at in
      let done = ap (λ o. o.0) (sym run) ∙ in_mux in
      record {
        at = at;
        context = a.0;
        active = a.1;
        store = s;
        key = ap (λ x. (x, s)) a.2;
        accepted = handle-Accepted redis json h (fresh 0) r (some a.0) v id done;
        same =
            at_api
            ∙ ap (λ (o : Response × World redis). (api o.0, o.1)) (a.3 ∙ run)
            ∙ ap (λ x. (api x, (handle_single_event redis json h (fresh 0) r (some a.0) v).1)) done;
      }

  published-handle_error :
      (fresh : Fresh) (r : Request) (kc : Option KeyContext) (w : World redis)
      → is_error (handle_single_event redis json h fresh r kc w).0 ≡ true
      → (handle_single_event redis json h fresh r kc w).1.published ≡ w.published
  published-handle_error fresh r kc w bad =
      let (status, code, message, q) =
        error_reply (handle_single_event redis json h fresh r kc w).0 bad in
      published-handle_refused redis json h fresh r kc w status code message q

  mux_refused :
      (fresh : ℕ → Fresh) (path : Text) (r : Request) (kc : Option KeyContext) (w : World redis)
      → is_error (ingest_mux redis json h fresh path r kc w).0 ≡ true
      → (ingest_mux redis json h fresh path r kc w).1.published ≡ w.published
  unfolding ingest_mux
  mux_refused fresh path r kc w q = elim (Bool-cases (text_eq path (text "/v1/events"))) [
    | inl p ↦ ground (arith, p, published-handle_error (fresh 0) r kc w)
    | inr p ↦ ground (arith, p, published-handle_batch_refused redis json h fresh r kc w)
  ]

  refused_reply : (x : Response) → is_acceptance (api x) ≡ false → is_error x ≡ true
  refused_reply x q = ground arith

  -- Every answer other than the two acceptances, whether a redirect, a health check, an unknown path,
  -- a failed authentication or a refusal of a handler, hands nothing to Kafka.
  pub published-serve_refused :
      (fresh : ℕ → Fresh) (path : Text) (r : Request) (w : World redis)
      → is_acceptance (serve redis json h os net fresh path r w).0 ≡ false
      → (serve redis json h os net fresh path r w).1.published ≡ w.published
  unfolding serve route ready_handler
  published-serve_refused fresh path r w q =
      let clean = if text_eq r.method (text "CONNECT") then path else net.clean_path path in
      let next = ingest_mux redis json h fresh clean in
      ground (arith, q, published-auth_middleware redis json next r w (mux_refused fresh clean r))
