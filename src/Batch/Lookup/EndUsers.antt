-- ===== src/Batch/Lookup/EndUsers.antt =====
-- `batchEUCheck` against the single-event handler's `verifyEndUser`.
use quantumbilling.Common.{
  ◌≡◌, refl, ◌∙◌, ap, sym, List, [], ◌∷◌, ◌++◌, map, Text, text_eq, text_eq_iff, is_any,
  is_any-append, true, none, some, ◌&&◌, arith, All, Bool-cases, inl, inr,
}
use quantumbilling.Common.Search.{LacksColon}
use quantumbilling.Platform.Redis.{Redis, RedisLaws}
use quantumbilling.Platform.Postgres.{
  Postgres, absent, failing, serving, EndUser, has_end_user, select_end_users, end_user_in_org,
  batch_eu_pg, query_end_users, read_uuids, Tables,
}
use quantumbilling.Ingest.Verify.{
  verify_key_iff, end_user_key, verify_key, fall_back, verify_end_user,
}
use quantumbilling.Batch.Process.Duplicates.{is_held}
use quantumbilling.Batch.Lookup.{pipeline, batch_eu_check, split_pair, pair_key, row_pair}
use quantumbilling.Batch.Lookup.Split.{split_pair-append}
use quantumbilling.Batch.Lookup.Sound.{
  IsCanonical, All-is_any, read_uuids-IsCanonical, read_uuids_malformed, All-pipeline_missing,
  says_yes, is_hit-exists, pipeline-valid, pipeline-missing,
}

-- A pair as the batch writes it.
abbrev pub pair : Text → Text → Text
pair o u = o ++ (b':' ∷ u)

is_any-map :
    (f : Text → Text) (x : Text) (xs : List Text)
    → is_any x xs ≡ true
    → is_any (f x) (map f xs) ≡ true
unfolding is_any
is_any-map f x [] h = ground (arith, h)
is_any-map f x (y ∷ xs) h = elim (Bool-cases (text_eq y x)) [
  | inl p ↦ ground (arith, text_eq_iff (f y) (f x), ap f ((text_eq_iff y x).0 p))
  | inr p ↦ ground (arith, p, h, is_any-map f x xs)
]

-- Two pairs without a colon in their second parts are equal only part by part.
pair-parts :
    (o u p v : Text) → LacksColon u → LacksColon v → pair p v ≡ pair o u → (p ≡ o) × (v ≡ u)
pair-parts o u p v hu hv q =
    let same = sym (split_pair-append p v hv) ∙ ap split_pair q ∙ split_pair-append o u hu in
    (ap (λ t. t.0) same, ap (λ t. t.1) same)

pair-text_eq :
    (o u p v : Text)
    → LacksColon u
    → LacksColon v
    → text_eq (pair p v) (pair o u) ≡ text_eq p o && text_eq v u
pair-text_eq o u p v hu hv = elim (Bool-cases (text_eq p o && text_eq v u)) [
  | inl both ↦
      let p_o : p ≡ o = ground (arith, both, text_eq_iff p o) in
      let v_u : v ≡ u = ground (arith, both, text_eq_iff v u) in
      (text_eq_iff (pair p v) (pair o u)).1 (rw (p_o, v_u) refl) ∙ sym both
  | inr differ ↦ ground (
    arith,
    differ,
    text_eq_iff (pair p v) (pair o u),
    text_eq_iff p o,
    text_eq_iff v u,
    pair-parts o u p v hu hv,
  )
]

-- The identifiers of the end users have no colon.
abbrev pub ArePlain : List EndUser → Type 0
ArePlain = All (λ u. LacksColon u.id)

is_any-select_end_users :
    (o u : Text) (orgs ids : List Text) (us : List EndUser)
    → LacksColon u
    → ArePlain us
    → is_any o orgs ≡ true
    → is_any u ids ≡ true
    → is_any (pair o u) (map row_pair (select_end_users orgs ids us)) ≡ has_end_user o u us
unfolding select_end_users has_end_user is_any
is_any-select_end_users o u orgs ids [] hu plain in_orgs in_ids = refl
is_any-select_end_users o u orgs ids (v ∷ us) hu plain in_orgs in_ids = ground (
  arith,
  is_any-select_end_users o u orgs ids us hu plain.1 in_orgs in_ids,
  pair-text_eq o u v.org_id v.id hu plain.0,
  text_eq_iff v.org_id o,
  text_eq_iff v.id u,
  in_orgs,
  in_ids,
)

-- What Postgres serves has plain identifiers.
abbrev pub ServesPlain : Postgres → Type 0
ServesPlain (serving db) = ArePlain db.end_users
ServesPlain absent = Unit
ServesPlain failing = Unit

is_any-batch_eu_pg :
    (o u : Text) (pg : Postgres) (orgs ids : List Text)
    → LacksColon u
    → ServesPlain pg
    → All (IsCanonical pg) orgs
    → All (IsCanonical pg) ids
    → is_any o orgs ≡ true
    → is_any u ids ≡ true
    → is_any (pair o u) (map row_pair (batch_eu_pg pg orgs ids)) ≡ says_yes (end_user_in_org pg o u)
unfolding batch_eu_pg query_end_users end_user_in_org is_any
is_any-batch_eu_pg o u absent orgs ids hu plain good_orgs good_ids in_orgs in_ids = refl
is_any-batch_eu_pg o u failing orgs ids hu plain good_orgs good_ids in_orgs in_ids = refl
is_any-batch_eu_pg o u (serving db) orgs ids hu plain good_orgs good_ids in_orgs in_ids =
    let read_u = All-is_any (IsCanonical (serving db)) u ids good_ids in_ids in
    let read_o = All-is_any (IsCanonical (serving db)) o orgs good_orgs in_orgs in
    rw
      (
        read_uuids-IsCanonical db.read_uuid ids good_ids,
        read_uuids-IsCanonical db.read_uuid orgs good_orgs,
        query_end_users,
        read_u,
        read_o,
        end_user_in_org,
      )
      (is_any-select_end_users o u orgs ids db.end_users hu plain in_orgs in_ids)

All-map :
    (P : Text → Type 0) (f : Text → Text) (xs : List Text)
    → All (λ x. P (f x)) xs
    → All P (map f xs)
All-map P f [] all = tt
All-map P f (x ∷ xs) all = (all.0, All-map P f xs all.1)

-- The two lists of the query.
abbrev orgs_of : List Text → List Text
orgs_of = map (λ p. (split_pair p).0)

abbrev users_of : List Text → List Text
users_of = map (λ p. (split_pair p).1)

-- The parts of the pairs are uuids as Postgres writes them.
abbrev pub AreCanonical : Postgres → List Text → Type 0
AreCanonical pg pairs =
    All (λ p. IsCanonical pg (split_pair p).0) pairs
    × All (λ p. IsCanonical pg (split_pair p).1) pairs

module _ (redis : Redis) (laws : RedisLaws redis) where
  open laws use {held, live}

  -- A pair that the batch asks for passes its check exactly if the single-event handler's check lets
  -- the end user pass, with a server that answers, if all the identifiers that are asked for are
  -- uuids in the form in which Postgres writes them, and neither the end user's identifier nor one
  -- that Postgres serves has a colon: the rows of other pairs that the two lists of the query let
  -- through do not count for it.
  pub batch_eu_check-verify_end_user :
      (pg : Postgres) (pairs : List Text) (o u : Text) (s : redis.Store)
      → live s ≡ true
      → LacksColon u
      → ServesPlain pg
      → AreCanonical pg pairs
      → is_any (pair o u) pairs ≡ true
      → is_any (pair o u) (batch_eu_check redis pg pairs s).0 ≡ (verify_end_user redis pg o u s).0
  unfolding batch_eu_check verify_end_user verify_key fall_back
  batch_eu_check-verify_end_user pg pairs o u s up hu plain good asked =
      let x = pair o u in
      let split = split_pair-append o u hu in
      let key : pair_key x ≡ end_user_key o u = ap (λ p. end_user_key p.0 p.1) split in
      let found = pipeline redis pair_key pairs s in
      let orgs = orgs_of found.missing in
      let ids = users_of found.missing in
      let good_orgs : All (IsCanonical pg) orgs =
        All-map (IsCanonical pg) (λ p. (split_pair p).0) found.missing
          (All-pipeline_missing redis laws pair_key (λ p. IsCanonical pg (split_pair p).0) pairs s
            good.0) in
      let good_ids : All (IsCanonical pg) ids =
        All-map (IsCanonical pg) (λ p. (split_pair p).1) found.missing
          (All-pipeline_missing redis laws pair_key (λ p. IsCanonical pg (split_pair p).1) pairs s
            good.1) in
      let valid = pipeline-valid redis laws pair_key x pairs s up in
      let missing = pipeline-missing redis laws pair_key x pairs s up in
      let hit = is_hit-exists redis laws (end_user_key o u) s up in
      let joined = is_any-append x found.valid (map row_pair (batch_eu_pg pg orgs ids)) in
      elim (Bool-cases (is_held (held s (end_user_key o u)))) [
        | inl cached ↦ ground (arith, valid, key, hit, joined, asked, cached)
        | inr fresh ↦
            let in_missing : is_any x found.missing ≡ true =
              ground (arith, missing, key, asked, fresh) in
            let in_orgs : is_any o orgs ≡ true =
              rw (ap (λ p. p.0) split) at
                (is_any-map (λ p. (split_pair p).0) x found.missing in_missing) in
            let in_ids : is_any u ids ≡ true =
              rw (ap (λ p. p.1) split) at
                (is_any-map (λ p. (split_pair p).1) x found.missing in_missing) in
            ground (
              arith,
              valid,
              key,
              hit,
              joined,
              asked,
              fresh,
              is_any-batch_eu_pg o u pg orgs ids hu plain good_orgs good_ids in_orgs in_ids,
            )
      ]

  -- One pair whose end user is no uuid, and that is not cached, makes the query of the whole batch
  -- fail: with a server that answers, the pairs that pass the check are then exactly those asked for
  -- that are cached, whatever Postgres has. The single-event handler's check, which asks for one end
  -- user at a time, lets each of the others pass that Postgres has under identifiers it can read.
  pub batch_eu_check_malformed :
      (db : Tables) (pairs : List Text) (bad x : Text) (s : redis.Store)
      → live s ≡ true
      → is_any bad pairs ≡ true
      → held s (pair_key bad) ≡ none
      → db.read_uuid (split_pair bad).1 ≡ none
      → (is_any x (batch_eu_check redis (serving db) pairs s).0
          ≡ is_any x pairs && is_held (held s (pair_key x)))
        × ((o u : Text)
            → db.read_uuid u ≡ some u
            → db.read_uuid o ≡ some o
            → has_end_user o u db.end_users ≡ true
            → (verify_end_user redis (serving db) o u s).0 ≡ true)
  unfolding batch_eu_check batch_eu_pg query_end_users
  batch_eu_check_malformed db pairs bad x s up asked cold malformed =
      let found = pipeline redis pair_key pairs s in
      let in_missing : is_any bad found.missing ≡ true =
        ground (arith, pipeline-missing redis laws pair_key bad pairs s up, asked, cold) in
      let fails : read_uuids db.read_uuid (users_of found.missing) ≡ none =
        read_uuids_malformed db.read_uuid (split_pair bad).1 (users_of found.missing)
          (is_any-map (λ p. (split_pair p).1) bad found.missing in_missing) malformed in
      (
        rw (fails, query_end_users)
            (is_any-append x found.valid []
              ∙ ground (arith, pipeline-valid redis laws pair_key x pairs s up)),
        λ o u read_u read_o has.
            unfold verify_end_user in
            (verify_key_iff redis laws (end_user_in_org (serving db) o u) (end_user_key o u) s up).1
              (inr (unfold end_user_in_org in rw (read_u, read_o, has) refl)),
      )
