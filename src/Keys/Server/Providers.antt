-- ===== src/Keys/Server/Providers.antt =====
-- The life of a provider key, as requests to the keys API.
use quantumbilling.Common.{
  ◌&&◌, if◌then◌else◌, ◌≡◌, ◌∙◌, ap, sym, refl, All, [], ◌∷◌, ◌≢◌, List, Text, text, Option, some,
  Option-cases, inl, inr, arith,
}
use quantumbilling.Common.Outcome.{Outcome, done, failed}
use quantumbilling.Platform.Redis.{Redis}
use quantumbilling.Keys.{Draw}
use quantumbilling.Byok
use quantumbilling.Byok.{
  Columns, row_of, CryptoLaws, ProviderKey, ProviderTable, register_provider_key, get_provider_key,
}
use quantumbilling.Byok.Laws.{
  Registered, registered, register_failed, Registered-false, NeedsId, reads_as,
  get-register_provider_key,
}
use quantumbilling.Keys.Api.{status, Call, handle_keys, answer_created, handle_key_by_id}
use quantumbilling.Keys.Server.{
  Reply, api, State, Tools, ProviderRequest, route, serve, handle_byok, handle_security_audit_logs,
}

module _ (redis : Redis) (tools : Tools) (crypto_laws : CryptoLaws tools.crypto) where
  -- A registration is answered at /v1/byok/config only, by the service of the provider keys.
  registration_answered :
      (draw : Draw) (iv : Option Text) (r : Call) (s : State redis)
      → (serve redis tools draw iv r s).0 ≡ api (status 201 (text "registered"))
      → (req : ProviderRequest) × (tools.decode_provider r.body ≡ some req)
        × ((register_provider_key tools.crypto iv req.org_id req.provider req.api_key s.providers).0
            ≡ done tt)
        × ((serve redis tools draw iv r s).1.providers
            ≡ (register_provider_key tools.crypto iv req.org_id req.provider req.api_key
                s.providers).1)
  unfolding serve route handle_keys handle_key_by_id handle_byok handle_security_audit_logs
      answer_created
  registration_answered draw iv r s q = elim (Option-cases (tools.decode_provider r.body)) [
    | inl p ↦ absurd (ground (arith, p, q))
    | inr (req, p) ↦ (req, p, ground (arith, p, q), ground (arith, p, q))
  ]

  -- What stands behind a 201 of a registration, and what can be read afterwards.
  pub record Stored (columns : Columns) (rows : List ProviderKey) (iv : Option Text) (body : Text)
      (after : ProviderTable) : Type 0 where
    pub req : ProviderRequest
    pub parsed : tools.decode_provider body ≡ some req
    pub done_by : Registered tools.crypto crypto_laws columns iv req.org_id req.provider req.api_key
    pub reads :
        (org provider : Text)
        → get_provider_key tools.crypto org provider after ≡ (
            if reads_as columns.read_org done_by.org org
              && reads_as columns.read_provider done_by.name provider
            then done req.api_key
            else get_provider_key tools.crypto org provider (Byok.ready columns rows))

  -- A registration over HTTP is answered with 201, at a table that is served, only if the body names
  -- a supported provider, the columns read its values and the constraints take the row; its key is
  -- then read under every text that is read as its organization and as the lowered name of its
  -- provider, and every other key is read as before.
  pub serve-registered :
      (draw : Draw) (iv : Option Text) (r : Call) (s : State redis) (columns : Columns)
      (rows : List ProviderKey)
      → s.providers ≡ Byok.ready columns rows
      → (serve redis tools draw iv r s).0 ≡ api (status 201 (text "registered"))
      → Stored columns rows iv r.body (serve redis tools draw iv r s).1.providers
  serve-registered draw iv r s columns rows at_rows q =
      let (req, parsed, ok, table) = registration_answered draw iv r s q in
      let run : ProviderTable → Outcome (Unit {0}) × ProviderTable =
        register_provider_key tools.crypto iv req.org_id req.provider req.api_key in
      let by =
        registered tools.crypto crypto_laws columns iv req.org_id req.provider req.api_key rows
          (ap (λ t. (run t).0) (sym at_rows) ∙ ok) in
      record {
        req = req;
        parsed = parsed;
        done_by = by;
        reads = λ org provider.
            ap (get_provider_key tools.crypto org provider) (table ∙ ap (λ t. (run t).1) at_rows)
            ∙ get-register_provider_key tools.crypto crypto_laws columns iv req.org_id req.provider
                req.api_key rows org provider by;
      }

  -- A registration at a table that needs an id is not done, and leaves the table.
  register_refused :
      (columns : Columns) (iv : Option Text) (org_id provider api_key : Text)
      (rows : List ProviderKey)
      → NeedsId columns
      → let o =
          register_provider_key tools.crypto iv org_id provider api_key (Byok.ready columns rows) in
        (message : Text) × (o ≡ (failed message, Byok.ready columns rows))
  register_refused columns iv org_id provider api_key rows needs = go _ refl
    where
      run : Outcome (Unit {0}) × ProviderTable
      run = register_provider_key tools.crypto iv org_id provider api_key (Byok.ready columns rows)

      go :
          (o : Outcome (Unit {0}) × ProviderTable)
          → o ≡ run
          → (message : Text) × (run ≡ (failed message, Byok.ready columns rows))
      go (failed message, t) q = (
        message,
        sym q
            ∙ ap (λ u. (failed message, u))
                (ap (λ x. x.1) q
                  ∙ register_failed tools.crypto crypto_laws columns iv org_id provider api_key
                      message rows (ap (λ x. x.0) (sym q))),
      )
      go (done u, t) q =
          let by =
            registered tools.crypto crypto_laws columns iv org_id provider api_key rows
              (ap (λ x. x.0) (sym q)) in
          absurd
            (Registered-false tools.crypto crypto_laws columns iv org_id provider api_key by needs)

  serve_refused :
      (draw : Draw) (iv : Option Text) (r : Call) (s : State redis) (columns : Columns)
      (rows : List ProviderKey)
      → s.providers ≡ Byok.ready columns rows
      → NeedsId columns
      → ((serve redis tools draw iv r s).0 ≢ api (status 201 (text "registered")))
        × ((serve redis tools draw iv r s).1.providers ≡ Byok.ready columns rows)
  unfolding serve route handle_keys handle_key_by_id handle_byok handle_security_audit_logs
      answer_created
  serve_refused draw iv r s columns rows at_rows needs = (
    λ q.
        let stored = serve-registered draw iv r s columns rows at_rows q in
        Registered-false tools.crypto crypto_laws columns iv stored.req.org_id stored.req.provider
          stored.req.api_key stored.done_by needs,
    elim (Option-cases (tools.decode_provider r.body)) [
      | inl p ↦ ground (arith, p, at_rows)
      | inr (req, p) ↦
          let refused =
            register_refused columns iv req.org_id req.provider req.api_key rows needs in
          ground (arith, p, at_rows, refused.1)
    ],
  )

  -- Requests one after the other, each with what is drawn for it: the replies.
  unfoldable pub serve_all :
      List (Draw × Option Text × Call) → State redis → List Reply × State redis
  serve_all [] s = ([], s)
  serve_all ((draw, iv, r) ∷ rs) s =
      let (reply, t) = serve redis tools draw iv r s in
      let (replies, u) = serve_all rs t in (reply ∷ replies, u)

  -- At a table whose constraints need an id, as in control-plane/prisma/schema.prisma, whose column
  -- id has no default that Postgres knows, no request of any sequence is answered with the 201 of a
  -- registration, and the stored provider keys stay as they are.
  pub serve_all-NeedsId :
      (rs : List (Draw × Option Text × Call)) (s : State redis) (columns : Columns)
      (rows : List ProviderKey)
      → s.providers ≡ Byok.ready columns rows
      → NeedsId columns
      → All (λ reply. reply ≢ api (status 201 (text "registered"))) (serve_all rs s).0
        × ((serve_all rs s).1.providers ≡ Byok.ready columns rows)
  unfolding serve_all
  serve_all-NeedsId [] s columns rows at_rows needs = (tt, at_rows)
  serve_all-NeedsId ((draw, iv, r) ∷ rs) s columns rows at_rows needs =
      let (refused, kept) = serve_refused draw iv r s columns rows at_rows needs in
      let (rest, last) =
        serve_all-NeedsId rs (serve redis tools draw iv r s).1 columns rows kept needs in
      ((refused, rest), last)
