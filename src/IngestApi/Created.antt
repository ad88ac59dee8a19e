-- ===== src/IngestApi/Created.antt =====
-- A key of the key service at the ingest API: from engine/internal/keys/service.go through
-- engine/internal/auth/redis_provider.go to the publication of an event.
use quantumbilling.Common.{
  ℕ, List, ◌≡◌, ◌≢◌, ◌⊎◌, ◌∙◌, sym, ap, subst, ◌++◌, Text, text, text_eq, is_empty, true, false,
  some, none, arith, if◌then◌else◌, ◌∷◌, [], Option-cases, inl, inr,
}
use quantumbilling.Common.Search.{has_prefix}
use quantumbilling.Common.Outcome.{done}
use quantumbilling.Models.EventId.{new_uuid}
use quantumbilling.Models.{UsageEvent, KeyContext, Fresh, enrich}
use quantumbilling.Models.Laws.{enrich-IsScoped}
use quantumbilling.Models.Codec.{Json, JsonLaws}
use quantumbilling.Platform.Redis.{Redis, RedisLaws}
use quantumbilling.Platform.Postgres.{org_exists, end_user_in_org}
use quantumbilling.Http.{Request, event_accepted, World, post}
use quantumbilling.Auth.{auth_middleware, validate_api_key, granted, api_key_key}
use quantumbilling.Ingest.{IngestHandler, idem_key, handle_single_event}
use quantumbilling.Ingest.Verify.{org_key, end_user_key}
use quantumbilling.Ingest.Accepted.{published-handle_accepted}
use quantumbilling.Ingest.Complete.{Acceptable, handle_accepts}
use quantumbilling.Keys.{
  KeyRequest, KeyResponse, Packages, Draw, store_key, create_key, generate_key,
}
use quantumbilling.Keys.Table.{KeyTable}
use quantumbilling.Keys.Laws.{context_of, IsPlain, create_key-authenticates}
use quantumbilling.Settings.{Os}
use quantumbilling.IngestApi.{Net, api, ingest_mux, route, serve}

module _ (redis : Redis) (laws : RedisLaws redis) (json : Json) (h : IngestHandler) (os : Os)
    (net : Net) where
  open laws use {held, live}

  -- The lookup of a key changes nothing that the handler asks for.
  Acceptable-validate :
      (raw_key : Text) (r : Request) (e : UsageEvent) (s : redis.Store)
      → Acceptable redis laws json h r e s
      → Acceptable redis laws json h r e (validate_api_key redis json raw_key s).1
  unfolding validate_api_key
  Acceptable-validate raw_key r e s a =
      let same : (k : Text) → held s k ≡ held (redis.get (api_key_key raw_key) s).1 k =
        λ k. sym (laws.held-get (api_key_key raw_key) k s) in
      record {
        method = a.method;
        content = a.content;
        size = a.size;
        valid = a.valid;
        free = sym (same (idem_key e)) ∙ a.free;
        org =
            subst (λ o. (o ≢ none) ⊎ (org_exists h.pg e.org_id ≡ some true))
              (same (org_key e.org_id)) a.org;
        user =
            subst
              (λ o.
                (is_empty e.end_user_id ≡ true)
                ⊎ ((o ≢ none) ⊎ (end_user_in_org h.pg e.org_id e.end_user_id ≡ some true)))
              (same (end_user_key e.org_id e.end_user_id)) a.user;
        message = a.message;
        encodes = a.encodes;
      }

  live-validate :
      (raw_key : Text) (s : redis.Store) → live (validate_api_key redis json raw_key s).1 ≡ live s
  unfolding validate_api_key
  live-validate raw_key s = laws.live-get (api_key_key raw_key) s

  -- A request to the events' path with a key that is granted reaches the handler.
  serve_granted :
      (fresh : ℕ → Fresh) (r : Request) (w : World redis) (kc : KeyContext)
      → r.method ≡ post
      → net.clean_path (text "/v1/events") ≡ text "/v1/events"
      → is_empty r.api_key ≡ false
      → (validate_api_key redis json r.api_key w.store).0 ≡ granted kc
      → serve redis json h os net fresh (text "/v1/events") r w ≡ (
          let (reply, v) =
            handle_single_event redis json h
              (fresh 0)
              r
              (some kc)
              (record w { store = (validate_api_key redis json r.api_key w.store).1 }) in
          (api reply, v))
  unfolding serve route ingest_mux auth_middleware text text_eq has_prefix
  serve_granted fresh r w kc is_post clean keyed key = ground (arith, is_post, clean, keyed, key)

  created_key :
      (pkg : Packages) (draw : Draw) (req : KeyRequest) (table : KeyTable) (s : redis.Store)
      (resp : KeyResponse)
      → (create_key redis json pkg draw req (table, s)).0 ≡ done resp
      → (is_empty resp.raw_key ≡ false) × (resp.org_id ≡ req.org_id)
  unfolding create_key store_key generate_key text
  created_key pkg draw req table s resp q = ground arith

  live-store_key :
      (pkg : Packages) (bytes : List ℕ) (now id : Text) (req : KeyRequest) (table : KeyTable)
      (s : redis.Store)
      → live (store_key redis json pkg bytes now id req (table, s)).2 ≡ live s
  unfolding store_key
  live-store_key pkg bytes now id req table s = laws.live-set _ _ 0 s

  live-create_key :
      (pkg : Packages) (draw : Draw) (req : KeyRequest) (table : KeyTable) (s : redis.Store)
      → live (create_key redis json pkg draw req (table, s)).2 ≡ live s
  unfolding create_key
  live-create_key pkg draw req table s = elim (Option-cases draw.key_bytes) [
    | inl f ↦ ground (arith, f)
    | inr (bytes, f) ↦
        ground (arith, f, live-store_key pkg bytes draw.now (new_uuid draw.id_bytes) req table s)
  ]

  -- A key of the key service, used at the ingest API: after its creation, while Redis answers, a
  -- POST to /v1/events with that key and a JSON body whose event, enriched with the key's context, is
  -- acceptable (valid, encodable, its claim free, its organization and end user known) is accepted,
  -- and its event goes to Kafka once under the partition key of the organization that asked for the
  -- key, if a publish function is configured. The texts of the context are ASCII, and the mux leaves
  -- the path as it is.
  pub serve-create_key :
      (codec : JsonLaws json) (pkg : Packages) (draw : Draw) (req : KeyRequest) (table : KeyTable)
      (w : World redis) (resp : KeyResponse) (fresh : ℕ → Fresh) (r : Request) (e : UsageEvent)
      → (create_key redis json pkg draw req (table, w.store)).0 ≡ done resp
      → live w.store ≡ true
      → IsPlain (context_of resp)
      → r.api_key ≡ resp.raw_key
      → net.clean_path (text "/v1/events") ≡ text "/v1/events"
      → json.unmarshal_event r.body ≡ some e
      → (a : Acceptable redis laws json h r
          (enrich (context_of resp) (fresh 0) e)
          (create_key redis json pkg draw req (table, w.store)).2)
      → (let after = (create_key redis json pkg draw req (table, w.store)).2 in
          let (answer, v) =
            serve redis json h os net fresh (text "/v1/events") r (record w { store = after }) in
          (answer ≡ api (event_accepted (enrich (context_of resp) (fresh 0) e).event_id))
          × (v.published
              ≡ w.published
                ++ (if h.publish
                    then record { messages = a.message ∷ []; partition_key = req.org_id } ∷ []
                    else [])))
  serve-create_key codec pkg draw req table w resp fresh r e q up plain keyed clean body a =
      let after = (create_key redis json pkg draw req (table, w.store)).2 in
      let found = (validate_api_key redis json r.api_key after).1 in
      let v = record w { store = found } in
      let kc = context_of resp in
      let key : (validate_api_key redis json r.api_key after).0 ≡ granted kc = rw keyed (
        create_key-authenticates redis laws json codec pkg draw req table w.store resp q up
          plain) in
      let up' : live found ≡ true =
        live-validate r.api_key after ∙ live-create_key pkg draw req table w.store ∙ up in
      let a' = Acceptable-validate r.api_key r (enrich kc (fresh 0) e) after a in
      let done' = handle_accepts redis laws json h (fresh 0) r kc v e up' body a' in
      let made = created_key pkg draw req table w.store resp q in
      let ran =
        serve_granted fresh r (record w { store = after }) kc a.method clean (rw keyed made.0)
          key in
      let handed =
        published-handle_accepted redis json h (fresh 0) r kc v _ e a.message body a.encodes
          done' in
      let tenant = (enrich-IsScoped kc (fresh 0) e).org ∙ made.1 in
      (
        ap (λ o. o.0) ran ∙ ap (λ x. api x) done',
        ap (λ o. o.1.published) ran
            ∙ handed
            ∙ ap
                (λ org.
                  w.published
                  ++ (if h.publish
                      then record { messages = a.message ∷ []; partition_key = org } ∷ []
                      else []))
                tenant,
      )
