-- ===== src/Batch/Lookup/Sound.antt =====
-- `batchOrgCheck` against the single-event handler's `verifyOrg`.
use quantumbilling.Common.{
  ◌≡◌, refl, ◌∙◌, List, [], ◌∷◌, Text, text_eq_iff, is_any, is_any-append, Bool, true, false, not,
  ◌&&◌, Option, none, some, arith, All, subst, text_eq, Bool-cases, Option-cases, inl, inr,
}
use quantumbilling.Platform.Redis.{Redis, RedisLaws}
use quantumbilling.Platform.Postgres.{
  Postgres, absent, failing, serving, Organization, has_org, select_orgs, org_exists,
  batch_org_postgres, read_uuids, query_orgs,
}
use quantumbilling.Ingest.Verify.{org_key, is_hit, verify_key, fall_back, verify_org}
use quantumbilling.Batch.Process.Duplicates.{is_held}
use quantumbilling.Batch.Lookup.{pipeline, batch_org_check}

is_any-select_orgs :
    (x : Text) (ids : List Text) (os : List Organization)
    → is_any x (select_orgs ids os) ≡ is_any x ids && has_org x os
unfolding select_orgs has_org is_any
is_any-select_orgs x ids [] = ground arith
is_any-select_orgs x ids (o ∷ os) =
    ground (arith, is_any-select_orgs x ids os, text_eq_iff x o.id, text_eq_iff o.id x)

-- What an answer of Postgres lets pass.
abbrev pub says_yes : Option Bool → Bool
says_yes none = false
says_yes (some b) = b

-- A text that Postgres reads as the uuid that it is itself.
abbrev pub IsCanonical : Postgres → Text → Type 0
IsCanonical (serving db) t = db.read_uuid t ≡ some t
IsCanonical absent t = Unit
IsCanonical failing t = Unit

pub All-is_any :
    (P : Text → Type 0) (x : Text) (xs : List Text) → All P xs → is_any x xs ≡ true → P x
unfolding is_any
All-is_any P x [] all h = absurd (ground (arith, h))
All-is_any P x (y ∷ xs) all h = elim (Bool-cases (text_eq y x)) [
  | inl p ↦ subst P ((text_eq_iff y x).0 p) all.0
  | inr p ↦ All-is_any P x xs all.1 (ground (arith, p, h))
]

pub read_uuids-IsCanonical :
    (read : Text → Option Text) (ts : List Text)
    → All (λ t. read t ≡ some t) ts
    → read_uuids read ts ≡ some ts
unfolding read_uuids
read_uuids-IsCanonical read [] all = refl
read_uuids-IsCanonical read (t ∷ ts) all =
    rw (all.0, read_uuids-IsCanonical read ts all.1, read_uuids) refl

-- One text that is no uuid spoils the list.
pub read_uuids_malformed :
    (read : Text → Option Text) (bad : Text) (ts : List Text)
    → is_any bad ts ≡ true
    → read bad ≡ none
    → read_uuids read ts ≡ none
unfolding read_uuids is_any
read_uuids_malformed read bad [] h none_read = absurd (ground (arith, h))
read_uuids_malformed read bad (t ∷ ts) h none_read = elim (Bool-cases (text_eq t bad)) [
  | inl p ↦ rw ((text_eq_iff t bad).0 p, none_read, read_uuids) refl
  | inr p ↦
      let rest = read_uuids_malformed read bad ts (ground (arith, p, h)) none_read in
      elim (Option-cases (read t)) [
        | inl q ↦ rw (q, read_uuids) refl
        | inr (u, q) ↦ rw (q, rest, read_uuids) refl
      ]
]

is_any-batch_org_postgres :
    (x : Text) (pg : Postgres) (ids : List Text)
    → All (IsCanonical pg) ids
    → is_any x (batch_org_postgres pg ids) ≡ is_any x ids && says_yes (org_exists pg x)
unfolding batch_org_postgres query_orgs org_exists is_any
is_any-batch_org_postgres x absent ids all = ground arith
is_any-batch_org_postgres x failing ids all = ground arith
is_any-batch_org_postgres x (serving db) ids all =
    rw (read_uuids-IsCanonical db.read_uuid ids all, query_orgs)
      (elim (Bool-cases (is_any x ids)) [
        | inl asked ↦
            rw (All-is_any (IsCanonical (serving db)) x ids all asked, org_exists)
              (is_any-select_orgs x ids db.organizations)
        | inr other ↦ ground (arith, other, is_any-select_orgs x ids db.organizations)
      ])

module _ (redis : Redis) (laws : RedisLaws redis) where
  open laws use {held, live}

  pub is_hit-exists :
      (k : Text) (s : redis.Store)
      → live s ≡ true
      → is_hit (redis.exists k s).0 ≡ is_held (held s k)
  is_hit-exists k s up = let (n, e, iff) = laws.exists-reply k s up in rw e (ground arith)

  module _ (key_of : Text → Text) (x : Text) where
    pub pipeline-valid :
        (xs : List Text) (s : redis.Store)
        → live s ≡ true
        → is_any x (pipeline redis key_of xs s).valid ≡ is_any x xs && is_held (held s (key_of x))
    unfolding pipeline is_any
    pipeline-valid [] s up = refl
    pipeline-valid (y ∷ xs) s up =
        let s' = (redis.exists (key_of y) s).1 in
        ground (
          arith,
          is_hit-exists (key_of y) s up,
          laws.held-exists (key_of y) (key_of x) s,
          pipeline-valid xs s' (laws.live-exists (key_of y) s ∙ up),
          text_eq_iff y x,
          text_eq_iff x y,
        )

    pub pipeline-missing :
        (xs : List Text) (s : redis.Store)
        → live s ≡ true
        → is_any x (pipeline redis key_of xs s).missing
          ≡ is_any x xs && not (is_held (held s (key_of x)))
    unfolding pipeline is_any
    pipeline-missing [] s up = refl
    pipeline-missing (y ∷ xs) s up =
        let s' = (redis.exists (key_of y) s).1 in
        ground (
          arith,
          is_hit-exists (key_of y) s up,
          laws.held-exists (key_of y) (key_of x) s,
          pipeline-missing xs s' (laws.live-exists (key_of y) s ∙ up),
          text_eq_iff y x,
          text_eq_iff x y,
        )

  pub All-pipeline_missing :
      (key_of : Text → Text) (P : Text → Type 0) (xs : List Text) (s : redis.Store)
      → All P xs
      → All P (pipeline redis key_of xs s).missing
  unfolding pipeline
  All-pipeline_missing key_of P [] s all = tt
  All-pipeline_missing key_of P (x ∷ xs) s all =
      let rest = All-pipeline_missing key_of P xs (redis.exists (key_of x) s).1 all.1 in
      elim (Bool-cases (is_hit (redis.exists (key_of x) s).0)) [
        | inl hit ↦ rw (hit, pipeline) rest
        | inr miss ↦ rw (miss, pipeline) (all.0, rest)
      ]

  -- An organization passes the batch's check exactly if it is one of those asked for and the
  -- single-event handler's check lets it pass, with a server that answers, if every identifier that
  -- is asked for is a uuid in the form in which Postgres writes it.
  pub batch_org_check-verify_org :
      (pg : Postgres) (ids : List Text) (x : Text) (s : redis.Store)
      → live s ≡ true
      → All (IsCanonical pg) ids
      → is_any x (batch_org_check redis pg ids s).0 ≡ is_any x ids && (verify_org redis pg x s).0
  unfolding batch_org_check verify_org verify_key fall_back
  batch_org_check-verify_org pg ids x s up canonical = ground (
    arith,
    is_any-append x (pipeline redis org_key ids s).valid
        (batch_org_postgres pg (pipeline redis org_key ids s).missing),
    is_any-batch_org_postgres x pg (pipeline redis org_key ids s).missing
        (All-pipeline_missing org_key (IsCanonical pg) ids s canonical),
    pipeline-valid org_key x ids s up,
    pipeline-missing org_key x ids s up,
    is_hit-exists (org_key x) s up,
  )
