-- ===== src/Keys/Laws.antt =====
-- A creation of a key, and the authentication of the ingest API after it.
use quantumbilling.Common.{
  ℕ, ◌≡◌, refl, ap, ◌∙◌, subst, List, Text, text, text_eq, text_eq_refl, Option-cases, inl, inr,
  is_ascii, true, All, arith,
}
use quantumbilling.Models.{KeyContext}
use quantumbilling.Models.EventId.{new_uuid}
use quantumbilling.Models.Codec.{Json, JsonLaws, field_of, key_context_of}
use quantumbilling.Platform.Redis.{Redis, RedisLaws}
use quantumbilling.Auth.{granted, validate_api_key, of_reply, of_value, by_status, api_key_key}
use quantumbilling.Common.Outcome.{done, failed}
use quantumbilling.Keys.{
  KeyRequest, KeyResponse, Packages, Draw, generate_key, check_request, default_mode, context_map,
  store_key, create_key, new_row,
}
use quantumbilling.Keys.Table.{KeyRow, KeyTable, insert_row}

-- The context that a created key stands for.
abbrev pub context_of : KeyResponse → KeyContext
context_of resp = record {
  key_id = resp.id;
  org_id = resp.org_id;
  customer_id = resp.customer_id;
  source_mode = resp.source_mode;
  status = resp.status;
}

-- The texts of a context are ASCII.
abbrev pub IsPlain : KeyContext → Type 0
IsPlain kc =
    (is_ascii kc.key_id ≡ true)
    × (is_ascii kc.org_id ≡ true)
    × (is_ascii kc.customer_id ≡ true)
    × (is_ascii kc.source_mode ≡ true)

key_context-context_map :
    (id : Text) (req : KeyRequest)
    → key_context_of (context_map id req) ≡ record {
      key_id = id;
      org_id = req.org_id;
      customer_id = req.customer_id;
      source_mode = default_mode req;
      status = text "active";
    }
unfolding key_context_of field_of text text_eq
key_context-context_map id req = refl

by_status_active : (kc : KeyContext) → kc.status ≡ text "active" → by_status kc ≡ granted kc
unfolding by_status
by_status_active kc h = rw h (rw (text_eq_refl (text "active")) refl)

module _ (redis : Redis) (laws : RedisLaws redis) (json : Json) (codec : JsonLaws json)
    (pkg : Packages) where
  open laws use {held, live}

  -- A context that was cached as active is what the key is granted.
  validate-set :
      (raw_key id : Text) (req : KeyRequest) (s : redis.Store)
      → live s ≡ true
      → All (λ (f : Text × Text). is_ascii f.1 ≡ true) (context_map id req)
      → (validate_api_key redis json raw_key
          (redis.set (api_key_key raw_key) (json.marshal_map (context_map id req)) 0 s)).0
        ≡ granted (key_context_of (context_map id req))
  unfolding validate_api_key of_reply of_value
  validate-set raw_key id req s up plain =
      let v = json.marshal_map (context_map id req) in
      let s' = redis.set (api_key_key raw_key) v 0 s in
      rw
        (
          laws.get-eq (api_key_key raw_key) s' (laws.live-set (api_key_key raw_key) v 0 s ∙ up),
          laws.held-set_self (api_key_key raw_key) v 0 s up,
          codec.unmarshal-marshal_map (context_map id req) plain,
          of_value,
        )
        (by_status_active (key_context_of (context_map id req))
          (ap (λ c. c.status) (key_context-context_map id req)))

  -- The store after a creation, from the response.
  store_key-authenticates :
      (bytes : List ℕ) (now id : Text) (req : KeyRequest) (table : KeyTable) (s : redis.Store)
      → live s ≡ true
      → IsPlain (context_of (store_key redis json pkg bytes now id req (table, s)).0)
      → (validate_api_key redis json
          (store_key redis json pkg bytes now id req (table, s)).0.raw_key
          (store_key redis json pkg bytes now id req (table, s)).2).0
        ≡ granted (context_of (store_key redis json pkg bytes now id req (table, s)).0)
  unfolding store_key
  store_key-authenticates bytes now id req table s up plain =
      validate-set (generate_key bytes).0 id req s up
        (plain.0, (plain.1, (plain.2, (plain.3, (unfold text in refl, tt)))))
      ∙ ap granted (key_context-context_map id req)

  pub create_key-authenticates :
      (draw : Draw) (req : KeyRequest) (table : KeyTable) (s : redis.Store) (resp : KeyResponse)
      → (create_key redis json pkg draw req (table, s)).0 ≡ done resp
      → live s ≡ true
      → IsPlain (context_of resp)
      → (validate_api_key redis json resp.raw_key
          (create_key redis json pkg draw req (table, s)).2).0
        ≡ granted (context_of resp)
  unfolding create_key
  create_key-authenticates draw req table s resp h up plain =
      elim (Option-cases (check_request pkg req)) [
        | inr (m, e) ↦ ground (arith, e, h)
        | inl e ↦ elim (Option-cases draw.key_bytes) [
          | inl f ↦ ground (arith, e, f, h)
          | inr (bytes, f) ↦
              let made =
                store_key redis json pkg bytes draw.now (new_uuid draw.id_bytes) req (table, s) in
              let same : made.0 ≡ resp = ground (arith, e, f, h) in
              rw (e, f, create_key)
                (subst
                  (λ r.
                    IsPlain (context_of r)
                    → (validate_api_key redis json r.raw_key made.2).0 ≡ granted (context_of r))
                  same
                  (store_key-authenticates bytes draw.now (new_uuid draw.id_bytes) req table s up)
                  plain)
        ]
      ]

  -- A refused creation changes neither the table nor the cache.
  pub create_key_refused :
      (draw : Draw) (req : KeyRequest) (table : KeyTable) (s : redis.Store) (message : Text)
      → (create_key redis json pkg draw req (table, s)).0 ≡ failed message
      → ((create_key redis json pkg draw req (table, s)).1 ≡ table)
        × ((create_key redis json pkg draw req (table, s)).2 ≡ s)
  unfolding create_key
  create_key_refused draw req table s message h = ground arith

  -- The row of a created key, which carries its identifier.
  pub create_key-row :
      (draw : Draw) (req : KeyRequest) (table : KeyTable) (s : redis.Store) (resp : KeyResponse)
      → (create_key redis json pkg draw req (table, s)).0 ≡ done resp
      → (row : KeyRow) × (row.id ≡ resp.id)
        × ((create_key redis json pkg draw req (table, s)).1 ≡ insert_row row table)
  unfolding create_key store_key
  create_key-row draw req table s resp h = elim (Option-cases (check_request pkg req)) [
    | inr (m, e) ↦ ground (arith, e, h)
    | inl e ↦ elim (Option-cases draw.key_bytes) [
      | inl f ↦ ground (arith, e, f, h)
      | inr (bytes, f) ↦
          let key = generate_key bytes in
          let made =
            store_key redis json pkg bytes draw.now (new_uuid draw.id_bytes) req (table, s) in
          let same : made.0 ≡ resp = ground (arith, e, f, h) in
          (
            new_row pkg draw.now (new_uuid draw.id_bytes) key.0 key.1 req,
            ap (λ r. r.id) same,
            rw (e, f, create_key) refl,
          )
    ]
  ]
