-- ===== src/Daemon/Laws.antt =====
-- What a warm cache lets pass, and what the warming leaves alone.
use quantumbilling.Common.{
  ℕ, ◌≡◌, ◌≢◌, subst, suc, sym, ◌∙◌, List, [], ◌∷◌, Text, text, text_eq, text_eq_iff, is_empty,
  Bool, true, false, Option, none, some, arith, if◌then◌else◌, Bool-cases, inl, inr,
}
use quantumbilling.Platform.Redis.{Redis, RedisLaws}
use quantumbilling.Platform.Postgres.{Organization, EndUser, status_active}
use quantumbilling.Ingest.Verify.{org_key, end_user_key, backfill_ttl}
use quantumbilling.Keys.Table.{KeyRow}
use quantumbilling.Daemon.{mark, warm_orgs, warm_key, warm_keys, warm_end_users}

-- One of the keys is active, of an organization, and has a customer and an end user: a warming takes
-- it into account.
abbrev pub has_key : Text → List KeyRow → Bool
has_key org_id [] = false
has_key org_id (row ∷ rows) =
    let rest = has_key org_id rows in
    elim row.customer_id [
      | none ↦ rest
      | some c ↦ elim row.end_user_id [
        | none ↦ rest
        | some u ↦
            if text_eq row.org_id org_id
            then (if text_eq row.status (text "active") then true else rest)
            else rest
      ]
    ]

module _ (redis : Redis) (laws : RedisLaws redis) where
  open laws use {held, live, live-set, held-set_self, held-set_ne}

  live-mark : (k : Text) (s : redis.Store) → live (mark redis k s) ≡ live s
  live-mark k s = live-set k (text "1") backfill_ttl s

  -- A key is held with a server that answers.
  pub record IsWarm (k : Text) (s : redis.Store) : Type 0 where
    pub up : live s ≡ true
    pub warm : held s k ≢ none

  pub mark-IsWarm : (k : Text) (s : redis.Store) → live s ≡ true → IsWarm k (mark redis k s)
  mark-IsWarm k s h = record {
    up = live-mark k s ∙ h;
    warm = ground (arith, held-set_self k (text "1") backfill_ttl s h);
  }

  pub mark-keeps : (j k : Text) (s : redis.Store) → IsWarm k s → IsWarm k (mark redis j s)
  mark-keeps j k s w = elim (Bool-cases (text_eq j k)) [
    | inl p ↦
        subst (λ i. IsWarm k (mark redis i s)) (sym ((text_eq_iff j k).0 p)) (mark-IsWarm k s w.up)
    | inr p ↦ record {
      up = live-mark j s ∙ w.up;
      warm = ground (
        arith,
        w.warm,
        held-set_ne j k (text "1") backfill_ttl s (λ e. ground (arith, text_eq_iff j k, p, e)),
      );
    }
  ]

  -- A state stays live, and a key that is warm stays warm.
  module _ (k : Text) where
    abbrev pub Goal : Bool → ℕ × redis.Store → Type 0
    Goal true c = IsWarm k c.1
    Goal false c = live c.1 ≡ true

    step :
        (b : Bool) (n : ℕ) (j : Text) (c : ℕ × redis.Store)
        → Goal b c
        → Goal b (n, mark redis j c.1)
    step true n j c h = mark-keeps j k c.1 h
    step false n j c h = live-mark j c.1 ∙ h

    pub keeps-orgs :
        (b : Bool) (os : List Organization) (c : ℕ × redis.Store)
        → Goal b c
        → Goal b (warm_orgs redis os c)
    unfolding warm_orgs
    keeps-orgs b [] c h = h
    keeps-orgs b (o ∷ os) c h = keeps-orgs b os _ (go (text_eq o.status status_active))
      where
        go : (d : Bool) → Goal b (if d then (suc c.0, mark redis (org_key o.id) c.1) else c)
        go true = step b (suc c.0) (org_key o.id) c h
        go false = h

    pub keeps-end_users :
        (b : Bool) (us : List EndUser) (c : ℕ × redis.Store)
        → Goal b c
        → Goal b (warm_end_users redis us c)
    unfolding warm_end_users
    keeps-end_users b [] c h = h
    keeps-end_users b (u ∷ us) c h = keeps-end_users b us _ (go (text_eq u.status (text "active")))
      where
        go :
            (d : Bool)
            → Goal b (if d then (suc c.0, mark redis (end_user_key u.org_id u.id) c.1) else c)
        go true = step b (suc c.0) (end_user_key u.org_id u.id) c h
        go false = h

    pub keeps-key :
        (b : Bool) (row : KeyRow) (c : ℕ × redis.Store) → Goal b c → Goal b (warm_key redis row c)
    unfolding warm_key
    keeps-key b row c h = go row.customer_id row.end_user_id
      where
        last :
            (d : Bool) (u : Text)
            → Goal b (
              suc c.0,
              if d
                  then mark redis (org_key row.org_id) c.1
                  else mark redis (end_user_key row.org_id u) (mark redis (org_key row.org_id) c.1),
            )
        last true u = step b (suc c.0) (org_key row.org_id) c h
        last false u =
            step b (suc c.0) (end_user_key row.org_id u) (c.0, mark redis (org_key row.org_id) c.1)
              (step b c.0 (org_key row.org_id) c h)

        go :
            (x y : Option Text)
            → Goal b (elim x [
              | none ↦ c
              | some customer_id ↦ elim y [
                | none ↦ c
                | some end_user_id ↦ (
                  suc c.0,
                  if is_empty end_user_id
                      then mark redis (org_key row.org_id) c.1
                      else mark redis
                          (end_user_key row.org_id end_user_id)
                          (mark redis (org_key row.org_id) c.1),
                )
              ]
            ])
        go none y = h
        go (some x) none = h
        go (some x) (some u) = last (is_empty u) u

    pub keeps-keys :
        (b : Bool) (rows : List KeyRow) (c : ℕ × redis.Store)
        → Goal b c
        → Goal b (warm_keys redis rows c)
    unfolding warm_keys
    keeps-keys b [] c h = h
    keeps-keys b (row ∷ rows) c h = keeps-keys b rows _ (go (text_eq row.status (text "active")))
      where
        go : (d : Bool) → Goal b (if d then warm_key redis row c else c)
        go true = keeps-key b row c h
        go false = h
