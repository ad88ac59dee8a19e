-- ===== src/Daemon/Warm.antt =====
-- What a warmed cache lets pass, and what a removal of a key does.
use quantumbilling.Common.{
  ◌≢◌, ℕ, suc, ◌≡◌, refl, sym, ◌∙◌, List, [], ◌∷◌, Text, text, text_eq, text_eq_iff, is_empty, Bool,
  true, false, none, some, ◌&&◌, ◌||◌, arith, if◌then◌else◌, Bool-cases, Option-cases, inl, inr,
  subst,
}
use quantumbilling.Models.Codec.{Json}
use quantumbilling.Platform.Redis.{Redis, RedisLaws}
use quantumbilling.Platform.Postgres.{
  Postgres, serving, Organization, Tables, status_active, has_org, org_exists,
}
use quantumbilling.Auth.{api_key_key, validate_api_key, of_reply, denied, err_key_not_found}
use quantumbilling.Ingest.Verify.{org_key, end_user_key, backfill_ttl, verify_org, verify_key_iff}
use quantumbilling.Keys.Table.{KeyRow, ready}
use quantumbilling.Daemon.{mark, warm_orgs, warm_key, warm_keys, warm_all, revoke_key}
use quantumbilling.Daemon.Laws.{
  has_key, IsWarm, mark-IsWarm, mark-keeps, keeps-orgs, keeps-end_users, keeps-keys,
}

module _ (redis : Redis) (laws : RedisLaws redis) (org_id : Text) where
  open laws use {held, live}

  -- A list of organizations that has an active one with the identifier makes it warm.
  orgs-IsWarm :
      (os : List Organization) (c : ℕ × redis.Store)
      → live c.1 ≡ true
      → has_org org_id os ≡ true
      → IsWarm redis laws (org_key org_id) (warm_orgs redis os c).1
  unfolding warm_orgs has_org
  orgs-IsWarm [] c up h = ground (arith, h)
  orgs-IsWarm (o ∷ os) c up h =
      go (text_eq o.id org_id) (text_eq o.status status_active) refl h
        (λ d up'. orgs-IsWarm os d up')
    where
      go :
          (same active : Bool)
          → text_eq o.id org_id ≡ same
          → (same && active) || has_org org_id os ≡ true
          → ((d : ℕ × redis.Store)
              → live d.1 ≡ true
              → has_org org_id os ≡ true
              → IsWarm redis laws (org_key org_id) (warm_orgs redis os d).1)
          → IsWarm redis laws
              (org_key org_id)
              (warm_orgs redis os
                (if active then (suc c.0, mark redis (org_key o.id) c.1) else c)).1
      go true true e h' rec = keeps-orgs redis laws (org_key org_id) true os _ (
          subst (λ i. IsWarm redis laws (org_key org_id) (mark redis (org_key i) c.1))
            (sym ((text_eq_iff o.id org_id).0 e)) (mark-IsWarm redis laws (org_key org_id) c.1 up))
      go true false e h' rec = rec c up h'
      go false true e h' rec =
          rec (suc c.0, mark redis (org_key o.id) c.1)
            (laws.live-set (org_key o.id) (text "1") backfill_ttl c.1 ∙ up) h'
      go false false e h' rec = rec c up h'

  -- The row of an active key with a customer and an end user makes its organization warm.
  key-IsWarm :
      (row : KeyRow) (customer_id end_user_id : Text) (c : ℕ × redis.Store)
      → live c.1 ≡ true
      → row.customer_id ≡ some customer_id
      → row.end_user_id ≡ some end_user_id
      → row.org_id ≡ org_id
      → IsWarm redis laws (org_key org_id) (warm_key redis row c).1
  unfolding warm_key
  key-IsWarm row customer_id end_user_id c up e f same =
      rw (e, f, warm_key) (go (is_empty end_user_id))
    where
      base : IsWarm redis laws (org_key org_id) (mark redis (org_key row.org_id) c.1)
      base =
          subst (λ i. IsWarm redis laws (org_key org_id) (mark redis (org_key i) c.1)) (sym same)
            (mark-IsWarm redis laws (org_key org_id) c.1 up)

      go :
          (b : Bool)
          → IsWarm redis laws (org_key org_id) (
              if b
              then mark redis (org_key row.org_id) c.1
              else mark redis
                  (end_user_key row.org_id end_user_id)
                  (mark redis (org_key row.org_id) c.1))
      go true = base
      go false = mark-keeps redis laws (end_user_key row.org_id end_user_id) (org_key org_id) _ base

  -- Where the key stands that counts.
  data Counts (row : KeyRow) (rows : List KeyRow) : Type 0 where
    here :
        (customer_id end_user_id : Text)
        → row.customer_id ≡ some customer_id
        → row.end_user_id ≡ some end_user_id
        → row.org_id ≡ org_id
        → text_eq row.status (text "active") ≡ true
        → Counts row rows
    below : has_key org_id rows ≡ true → Counts row rows

  counts :
      (row : KeyRow) (rows : List KeyRow) → has_key org_id (row ∷ rows) ≡ true → Counts row rows
  counts row rows h = elim (Option-cases row.customer_id) [
    | inl e ↦ below (ground (arith, h, e))
    | inr (x, e) ↦ elim (Option-cases row.end_user_id) [
      | inl f ↦ below (ground (arith, h, e, f))
      | inr (y, f) ↦ elim (Bool-cases (text_eq row.org_id org_id)) [
        | inr p ↦ below (ground (arith, h, e, f, p))
        | inl p ↦ elim (Bool-cases (text_eq row.status (text "active"))) [
          | inr q ↦ below (ground (arith, h, e, f, p, q))
          | inl q ↦ here x y e f ((text_eq_iff row.org_id org_id).0 p) q
        ]
      ]
    ]
  ]

  keys-IsWarm :
      (rows : List KeyRow) (c : ℕ × redis.Store)
      → live c.1 ≡ true
      → has_key org_id rows ≡ true
      → IsWarm redis laws (org_key org_id) (warm_keys redis rows c).1
  unfolding warm_keys
  keys-IsWarm [] c up h = ground (arith, h)
  keys-IsWarm (row ∷ rows) c up h = elim (counts row rows h) [
    | here x y e f same q ↦
        rw (q, warm_keys)
          (keeps-keys redis laws (org_key org_id) true rows (warm_key redis row c)
            (key-IsWarm row x y c up e f same))
    | below h' ↦
        keys-IsWarm rows _ (keeps-keys redis laws (org_key org_id) false (row ∷ []) c up) h'
  ]

  all-IsWarm :
      (db : Tables) (rows : List KeyRow) (s : redis.Store)
      → live s ≡ true
      → has_org org_id db.organizations || has_key org_id rows ≡ true
      → IsWarm redis laws (org_key org_id) (warm_all redis (serving db) (ready rows) s).1
  unfolding warm_all
  all-IsWarm db rows s up h =
      keeps-end_users redis laws (org_key org_id) true db.end_users _
        (elim (Bool-cases (has_org org_id db.organizations)) [
          | inl p ↦
              keeps-keys redis laws (org_key org_id) true rows _
                (orgs-IsWarm db.organizations (0, s) up p)
          | inr p ↦
              keys-IsWarm rows _
                (keeps-orgs redis laws (org_key org_id) false db.organizations (0, s) up)
                (ground (arith, h, p))
        ])

  -- After a warming with both tables readable and a Redis that answers, an organization passes the
  -- ingest API's check, whatever Postgres says then, if it was active or had an active key with a
  -- customer and an end user.
  pub verify_org-warm_all :
      (db : Tables) (rows : List KeyRow) (s : redis.Store) (pg : Postgres)
      → live s ≡ true
      → has_org org_id db.organizations || has_key org_id rows ≡ true
      → (verify_org redis pg org_id (warm_all redis (serving db) (ready rows) s).1).0 ≡ true
  unfolding verify_org
  verify_org-warm_all db rows s pg up h =
      let w = all-IsWarm db rows s up h in
      let warmed = (warm_all redis (serving db) (ready rows) s).1 in
      (verify_key_iff redis laws (org_exists pg org_id) (org_key org_id) warmed w.up).1 (inl w.warm)

  -- An organization that Postgres does not have as an active one is refused while it is not cached,
  -- and passes after a warming if it still has an active key with a customer and an end user.
  pub verify_org-warm_all_inactive :
      (db : Tables) (rows : List KeyRow) (s : redis.Store)
      → live s ≡ true
      → held s (org_key org_id) ≡ none
      → org_exists (serving db) org_id ≢ some true
      → has_key org_id rows ≡ true
      → ((verify_org redis (serving db) org_id s).0 ≡ false)
        × ((verify_org redis (serving db) org_id (warm_all redis (serving db) (ready rows) s).1).0
            ≡ true)
  unfolding verify_org
  verify_org-warm_all_inactive db rows s up cold inactive key = (
    ground (
      arith,
      verify_key_iff redis laws (org_exists (serving db) org_id) (org_key org_id) s up,
      cold,
      inactive,
    ),
    verify_org-warm_all db rows s (serving db) up (ground (arith, key)),
  )

-- After the daemon has removed a key, it is not authenticated, if Redis answers.
pub validate-revoke_key :
    (redis : Redis) (laws : RedisLaws redis) (json : Json) (raw_key : Text) (s : redis.Store)
    → laws.live s ≡ true
    → (validate_api_key redis json raw_key (revoke_key redis raw_key s)).0
      ≡ denied err_key_not_found
unfolding validate_api_key revoke_key of_reply
validate-revoke_key redis laws json raw_key s up =
    rw
      (
        laws.get-eq (api_key_key raw_key) (redis.del (api_key_key raw_key) s)
            (laws.live-del (api_key_key raw_key) s ∙ up),
        laws.held-del_self (api_key_key raw_key) s up,
      )
      refl
