-- ===== src/Keys/Server/Laws.antt =====
-- The life of a key, as requests to the keys API.
use quantumbilling.Common.{
  ◌≡◌, ◌∙◌, refl, ap, List, ◌++◌, Text, text, text_eq, text_eq_refl, is_empty, true, false, Option,
  some, Option-cases, inl, inr, arith, drop, ◌∷◌, subst,
}
use quantumbilling.Common.Search.{has_prefix}
use quantumbilling.Common.Outcome.{Outcome, done, failed}
use quantumbilling.Models.Codec.{JsonLaws}
use quantumbilling.Platform.Redis.{Redis, RedisLaws}
use quantumbilling.Keys.{KeyRequest, KeyResponse, Draw, create_key, store_key, revoke_key}
use quantumbilling.Keys.Table.{KeyRow, KeyTable, ready, insert_row}
use quantumbilling.Auth.{granted, validate_api_key}
use quantumbilling.Keys.Laws.{create_key-row, create_key-authenticates, context_of, IsPlain}
use quantumbilling.Keys.Revoke.{revoke_key-head, revoked, status_of}
use quantumbilling.Models.EventId.Laws.{is_empty-new_uuid}
use quantumbilling.Keys.Api.{
  problem, created, status, Call, handle_keys, answer_created, handle_key_by_id,
}
use quantumbilling.Keys.Server.{
  Reply, api, State, Tools, route, serve, handle_byok, handle_security_audit_logs,
}

module _ (redis : Redis) (tools : Tools) where
  -- A creation is answered at /v1/keys only, by the key service.
  create_answered :
      (draw : Draw) (iv : Option Text) (r : Call) (s : State redis) (resp : KeyResponse)
      → (serve redis tools draw iv r s).0 ≡ api (created resp)
      → (req : KeyRequest) × (tools.decode_key r.body ≡ some req)
        × ((create_key redis tools.json tools.pkg draw req (s.keys, s.cache)).0 ≡ done resp)
        × ((serve redis tools draw iv r s).1.keys
            ≡ (create_key redis tools.json tools.pkg draw req (s.keys, s.cache)).1)
        × ((serve redis tools draw iv r s).1.cache
            ≡ (create_key redis tools.json tools.pkg draw req (s.keys, s.cache)).2)
  unfolding serve route handle_keys handle_key_by_id handle_byok handle_security_audit_logs
      answer_created
  create_answered draw iv r s resp q = elim (Option-cases (tools.decode_key r.body)) [
    | inl p ↦ absurd (ground (arith, p, q))
    | inr (req, p) ↦ (req, p, ground (arith, p, q), ground (arith, p, q), ground (arith, p, q))
  ]

  -- The path of a key.
  abbrev pub key_path : Text → Text
  key_path id = text "/v1/keys/" ++ id

  -- The routes in front of the subtree of the keys do not match such a path.
  key_path_tests :
      (path id : Text)
      → path ≡ key_path id
      → (text_eq path (text "/health") ≡ false)
        × (text_eq path (text "/ready") ≡ false)
        × (text_eq path (text "/v1/keys") ≡ false)
        × (text_eq path (text "/v1/byok/config") ≡ false)
        × (text_eq path (text "/v1/security-audit-logs") ≡ false)
        × (has_prefix path (text "/v1/keys/") ≡ true)
        × (drop 9 path ≡ id)
  unfolding text text_eq has_prefix
  key_path_tests path id at =
      (rw at refl, rw at refl, rw at refl, rw at refl, rw at refl, rw at refl, rw at refl)

  delete-eq :
      (draw : Draw) (iv : Option Text) (r : Call) (s : State redis) (id : Text)
      → r.method ≡ text "DELETE"
      → r.path ≡ key_path id
      → tools.clean_path r.path ≡ r.path
      → is_empty id ≡ false
      → serve redis tools draw iv r s ≡ (
        api (elim (revoke_key id s.keys).0 [
          | failed message ↦ problem 404 (text "NOT_FOUND") message
          | done u ↦ status 200 (text "revoked")
        ]),
        record s { keys = (revoke_key id s.keys).1 },
      )
  unfolding serve route handle_key_by_id
  delete-eq draw iv r s id is_delete at clean named = ground (
    arith,
    is_delete,
    clean,
    text_eq_refl r.path,
    text_eq_refl (text "DELETE"),
    key_path_tests r.path id at,
    named,
  )

  created_id :
      (draw : Draw) (req : KeyRequest) (table : KeyTable) (c : redis.Store) (resp : KeyResponse)
      → (create_key redis tools.json tools.pkg draw req (table, c)).0 ≡ done resp
      → is_empty resp.id ≡ false
  unfolding create_key store_key
  created_id draw req table c resp q = ground (arith, q, is_empty-new_uuid draw.id_bytes)

  -- What a deletion of a created key leads to.
  pub record Deleted (resp : KeyResponse) (s t : State redis) (reply : Reply) : Type 0 where
    pub answered : reply ≡ api (status 200 (text "revoked"))
    pub rows : List KeyRow
    pub table : t.keys ≡ ready rows
    pub marked : status_of resp.id rows ≡ some (text "revoked")
    pub cache : t.cache ≡ s.cache

  -- A key that the server has answered as created, with a table that takes the row, is deleted by a
  -- DELETE of its path: the answer is that it is revoked, its row is marked, and the cache stays as
  -- it was, whatever else the two requests carry. The mux leaves the path as it is.
  pub serve-Deleted :
      (codec : JsonLaws tools.json) (laws : RedisLaws redis) (draw draw' : Draw)
      (iv iv' : Option Text) (r d : Call) (s : State redis) (resp : KeyResponse)
      (rows : List KeyRow)
      → s.keys ≡ ready rows
      → (serve redis tools draw iv r s).0 ≡ api (created resp)
      → d.method ≡ text "DELETE"
      → d.path ≡ key_path resp.id
      → tools.clean_path d.path ≡ d.path
      → Deleted resp
          (serve redis tools draw iv r s).1
          (serve redis tools draw' iv' d (serve redis tools draw iv r s).1).1
          (serve redis tools draw' iv' d (serve redis tools draw iv r s).1).0
  unfolding insert_row
  serve-Deleted codec laws draw draw' iv iv' r d s resp rows at_rows q is_delete at clean =
      let (req, parsed, made, table, cached) = create_answered draw iv r s resp q in
      let (row, same, inserted) =
        create_key-row redis laws tools.json codec tools.pkg draw req s.keys s.cache resp made in
      let t = (serve redis tools draw iv r s).1 in
      let run =
        delete-eq draw' iv' d t resp.id is_delete at clean
          (created_id draw req s.keys s.cache resp made) in
      let now : t.keys ≡ ready (row ∷ rows) = table ∙ inserted ∙ ap (insert_row row) at_rows in
      let gone : revoke_key resp.id t.keys ≡ (done tt, ready (revoked row ∷ rows)) =
        ap (revoke_key resp.id) now
        ∙ subst (λ id. revoke_key id (ready (row ∷ rows)) ≡ (done tt, ready (revoked row ∷ rows)))
            same (revoke_key-head row rows) in
      record {
        answered =
            ap (λ o. o.0) run
            ∙ ap
                (λ (o : Outcome (Unit {0}) × KeyTable). api (elim o.0 [
                  | failed message ↦ problem 404 (text "NOT_FOUND") message
                  | done u ↦ status 200 (text "revoked")
                ]))
                gone;
        rows = revoked row ∷ rows;
        table = ap (λ o. o.1.keys) run ∙ ap (λ o. o.1) gone;
        marked = ground (arith, same, text_eq_refl resp.id);
        cache = ap (λ o. o.1.cache) run;
      }

  -- A key that the server has created and then deleted, with a table that takes the row and a Redis
  -- that answers, is marked as revoked in the table, and the ingest API authenticates it as before: a
  -- deletion does not reach the cache. The parts of the key are plain text, and the mux leaves the
  -- path as it is.
  pub serve-Deleted_authenticates :
      (codec : JsonLaws tools.json) (laws : RedisLaws redis) (draw draw' : Draw)
      (iv iv' : Option Text) (r d : Call) (s : State redis) (resp : KeyResponse)
      (rows : List KeyRow)
      → s.keys ≡ ready rows
      → laws.live s.cache ≡ true
      → IsPlain (context_of resp)
      → (serve redis tools draw iv r s).0 ≡ api (created resp)
      → d.method ≡ text "DELETE"
      → d.path ≡ key_path resp.id
      → tools.clean_path d.path ≡ d.path
      → let t = (serve redis tools draw' iv' d (serve redis tools draw iv r s).1).1 in
        ((marked : List KeyRow) × (t.keys ≡ ready marked)
          × (status_of resp.id marked ≡ some (text "revoked")))
        × ((validate_api_key redis tools.json resp.raw_key t.cache).0 ≡ granted (context_of resp))
  serve-Deleted_authenticates codec laws draw draw' iv iv' r d s resp rows at_rows up plain q
        is_delete at clean =
      let (req, parsed, made, table, cached) = create_answered draw iv r s resp q in
      let gone =
        serve-Deleted codec laws draw draw' iv iv' r d s resp rows at_rows q is_delete at clean in
      let known =
        create_key-authenticates redis laws tools.json codec tools.pkg draw req s.keys s.cache resp
          made up plain in
      (
        (gone.rows, gone.table, gone.marked),
        ap (λ c. (validate_api_key redis tools.json resp.raw_key c).0) (gone.cache ∙ cached)
            ∙ known,
      )
