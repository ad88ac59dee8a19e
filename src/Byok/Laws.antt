-- ===== src/Byok/Laws.antt =====
-- Reading provider keys after a registration.
use quantumbilling.Common.{
  ◌≡◌, ◌≢◌, refl, subst, ap, sym, ◌∙◌, List, [], ◌∷◌, Text, text_eq, text_eq_iff, text_eq_refl,
  is_any, Bool, Option, none, Option-cases, true, false, ◌&&◌, some, arith, if◌then◌else◌,
  Bool-cases, inl, inr,
}
use quantumbilling.Common.Outcome.{Outcome, done, failed}
use quantumbilling.Byok.{
  encrypt, decrypt, Crypto, CryptoLaws, ProviderTable, Columns, row_of, insert_key, ProviderKey,
  ready, providers, is_at, upsert, find, register_provider_key, get_provider_key,
}

find-upsert_self :
    (new : ProviderKey) (rows : List ProviderKey)
    → find new.org_id new.provider (upsert new rows) ≡ some new
unfolding find upsert
find-upsert_self new [] = ground (arith, text_eq_refl new.org_id, text_eq_refl new.provider)
find-upsert_self new (row ∷ rows) =
    ground (arith, text_eq_refl new.org_id, text_eq_refl new.provider, find-upsert_self new rows)

find-upsert_ne :
    (org_id provider : Text) (new : ProviderKey) (rows : List ProviderKey)
    → is_at org_id provider new ≡ false
    → find org_id provider (upsert new rows) ≡ find org_id provider rows
unfolding find upsert
find-upsert_ne org_id provider new [] h = ground (arith, h)
find-upsert_ne org_id provider new (row ∷ rows) h = ground (
  arith,
  h,
  find-upsert_ne org_id provider new rows h,
  text_eq_iff row.org_id new.org_id,
  text_eq_iff row.provider new.provider,
  text_eq_iff row.org_id org_id,
  text_eq_iff row.provider provider,
  text_eq_iff new.org_id org_id,
  text_eq_iff new.provider provider,
)

-- Whether a text is read as a value.
abbrev pub reads_as : (Text → Option Text) → Text → Text → Bool
reads_as read value t = elim (read t) [ none ↦ false | some v ↦ text_eq value v ]

-- A table whose constraints take no row in whose column id nothing was put.
abbrev pub NeedsId : Columns → Type 0
NeedsId columns = (row : ProviderKey) → columns.takes row ≡ false

module _ (crypto : Crypto) (laws : CryptoLaws crypto) (columns : Columns) where
  -- What a registration that a table with these columns answers as done has found: a provider that
  -- is supported, a nonce, values that the columns read, and constraints that take the row.
  pub record Registered (iv : Option Text) (org_id provider api_key : Text) : Type 0 where
    pub supported : is_any (crypto.to_lower provider) providers ≡ true
    pub nonce : Text
    pub drawn : iv ≡ some nonce
    pub org : Text
    pub org_read : columns.read_org org_id ≡ some org
    pub name : Text
    pub name_read : columns.read_provider (crypto.to_lower provider) ≡ some name
    pub taken : columns.takes (row_of org name (crypto.seal nonce api_key, nonce)) ≡ true

  pub registered :
      (iv : Option Text) (org_id provider api_key : Text) (rows : List ProviderKey)
      → (register_provider_key crypto iv org_id provider api_key (ready columns rows)).0 ≡ done tt
      → Registered iv org_id provider api_key
  unfolding register_provider_key insert_key encrypt
  registered iv org_id provider api_key rows q = elim (Option-cases iv) [
    | inl p ↦ absurd (ground (arith, p, q))
    | inr (nonce, p) ↦ elim (Option-cases (columns.read_org org_id)) [
      | inl p' ↦ absurd (ground (arith, p, p', q))
      | inr (org, p') ↦ elim (Option-cases (columns.read_provider (crypto.to_lower provider))) [
        | inl p'' ↦ absurd (ground (arith, p, p', p'', q))
        | inr (name, p'') ↦ record {
          supported = ground (arith, p, q);
          nonce = nonce;
          drawn = p;
          org = org;
          org_read = p';
          name = name;
          name_read = p'';
          taken = ground (arith, p, p', p'', q);
        }
      ]
    ]
  ]

  pub Registered-false :
      (iv : Option Text) (org_id provider api_key : Text)
      → Registered iv org_id provider api_key
      → NeedsId columns
      → ⊥
  Registered-false iv org_id provider api_key r needs =
      ground (arith, r.taken, needs (row_of r.org r.name (crypto.seal r.nonce api_key, r.nonce)))

  register-eq :
      (iv : Option Text) (org_id provider api_key : Text) (rows : List ProviderKey)
      (r : Registered iv org_id provider api_key)
      → register_provider_key crypto iv org_id provider api_key (ready columns rows) ≡ (
        done tt,
        ready columns (upsert (row_of r.org r.name (crypto.seal r.nonce api_key, r.nonce)) rows),
      )
  unfolding register_provider_key insert_key encrypt
  register-eq iv org_id provider api_key rows r =
      ground (arith, r.supported, r.drawn, r.org_read, r.name_read, r.taken)

  -- After a registration that was done, the key is read under every text that the columns read as
  -- the same organization and provider, and every other read gives what it gave before.
  pub get-register_provider_key :
      (iv : Option Text) (org_id provider api_key : Text) (rows : List ProviderKey)
      (org provider' : Text) (r : Registered iv org_id provider api_key)
      → get_provider_key crypto org provider'
          (register_provider_key crypto iv org_id provider api_key (ready columns rows)).1
        ≡ (if reads_as columns.read_org r.org org && reads_as columns.read_provider r.name provider'
            then done api_key
            else get_provider_key crypto org provider' (ready columns rows))
  unfolding get_provider_key decrypt
  get-register_provider_key iv org_id provider api_key rows org provider' r =
      rw (register-eq iv org_id provider api_key rows r)
        (elim (Option-cases (columns.read_org org)) [
          | inl p ↦ ground (arith, p)
          | inr (o, p) ↦ elim (Option-cases (columns.read_provider provider')) [
            | inl p' ↦ ground (arith, p, p')
            | inr (n, p') ↦ elim (Bool-cases (is_at o n new)) [
              | inl at ↦
                  let same_org : r.org ≡ o = ground (arith, at, text_eq_iff r.org o) in
                  let same_name : r.name ≡ n = ground (arith, at, text_eq_iff r.name n) in
                  let found : find o n (upsert new rows) ≡ some new =
                    subst (λ x. find x n (upsert new rows) ≡ some new) same_org
                      (subst (λ y. find r.org y (upsert new rows) ≡ some new) same_name
                        (find-upsert_self new rows)) in
                  rw (p, p', found, laws.unseal-seal r.nonce api_key, get_provider_key)
                    (ground (arith, p, p', at))
              | inr apart ↦
                  rw (p, p', find-upsert_ne o n new rows apart, get_provider_key)
                    (ground (arith, p, p', apart))
            ]
          ]
        ])
    where
      new : ProviderKey
      new = row_of r.org r.name (crypto.seal r.nonce api_key, r.nonce)

  -- A registration that is not done leaves the table as it was.
  pub register_failed :
      (iv : Option Text) (org_id provider api_key message : Text) (rows : List ProviderKey)
      → (register_provider_key crypto iv org_id provider api_key (ready columns rows)).0
        ≡ failed message
      → (register_provider_key crypto iv org_id provider api_key (ready columns rows)).1
        ≡ ready columns rows
  unfolding register_provider_key insert_key encrypt
  register_failed iv org_id provider api_key message rows q = elim (Option-cases iv) [
    | inl p ↦ ground (arith, p)
    | inr (nonce, p) ↦ elim (Option-cases (columns.read_org org_id)) [
      | inl p' ↦ ground (arith, p, p')
      | inr (org, p') ↦ elim (Option-cases (columns.read_provider (crypto.to_lower provider))) [
        | inl p'' ↦ ground (arith, p, p', p'')
        | inr (name, p'') ↦ ground (arith, p, p', p'', q)
      ]
    ]
  ]

  -- Whatever the registration of a provider comes to, reading under a name that the column does not
  -- read as the lowered one gives what it gave before: reading does not lower the name.
  pub get-register_provider_key_upper :
      (iv : Option Text) (org_id provider api_key : Text) (rows : List ProviderKey) (org : Text)
      → columns.read_provider provider ≢ columns.read_provider (crypto.to_lower provider)
      → get_provider_key crypto org provider
          (register_provider_key crypto iv org_id provider api_key (ready columns rows)).1
        ≡ get_provider_key crypto org provider (ready columns rows)
  get-register_provider_key_upper iv org_id provider api_key rows org ne =
      go (register_provider_key crypto iv org_id provider api_key (ready columns rows)).0 refl
    where
      after : ProviderTable
      after = (register_provider_key crypto iv org_id provider api_key (ready columns rows)).1

      go :
          (o : Outcome (Unit {0}))
          → o ≡ (register_provider_key crypto iv org_id provider api_key (ready columns rows)).0
          → get_provider_key crypto org provider after
            ≡ get_provider_key crypto org provider (ready columns rows)
      go (failed message) q =
          ap (get_provider_key crypto org provider)
            (register_failed iv org_id provider api_key message rows (sym q))
      go (done u) q =
          let r = registered iv org_id provider api_key rows (sym q) in
          get-register_provider_key iv org_id provider api_key rows org provider r
          ∙ elim (Option-cases (columns.read_provider provider)) [
            | inl p ↦ ground (arith, p)
            | inr (n, p) ↦ ground (arith, p, r.name_read, ne, text_eq_iff r.name n)
          ]
