-- ===== src/Daemon.antt =====
-- engine/internal/daemon/cache_daemon.go: the existence caches are warmed from Postgres, and the
-- contexts of keys are written and removed.
pub mod Laws
pub mod Warm
use quantumbilling.Common.{
  ℕ, zero, suc, List, [], ◌∷◌, ◌++◌, Text, text, text_eq, is_empty, Option, none, some,
  if◌then◌else◌,
}
use quantumbilling.Platform.Redis.{Redis}
use quantumbilling.Platform.Postgres.{
  Postgres, absent, failing, serving, Organization, EndUser, Tables, status_active,
}
use quantumbilling.Auth.{api_key_key}
use quantumbilling.Ingest.Verify.{org_key, end_user_key, backfill_ttl}
use quantumbilling.Keys.Table.{KeyRow, KeyTable, missing, broken, ready, refusing}

-- The fields of a format string of `fmt.Sprintf`, each `"name":"%s"`, with commas between them. The
-- texts are not escaped.
unfoldable pub fields : List (Text × Text) → Text
fields [] = []
fields ((name, value) ∷ rest) =
    let tail = fields rest in
    let field = 34 ∷ (name ++ (34 ∷ 58 ∷ 34 ∷ (value ++ 34 ∷ []))) in
    elim rest [ [] ↦ field | f ∷ fs ↦ field ++ 44 ∷ tail ]

-- The value that `SyncKey` writes.
unfoldable pub sync_value : Text → Text → Text → Text → Text → Text
unfolding fields
sync_value key_id org_id customer_id source_mode status =
    123
    ∷ (fields (
          (text "key_id", key_id)
          ∷ (text "org_id", org_id)
          ∷ (text "customer_id", customer_id)
          ∷ (text "source_mode", source_mode)
          ∷ (text "status", status)
          ∷ [])
        ++ 125 ∷ [])

module _ (redis : Redis) where
  -- `Set(ctx, key, "1", 1*time.Hour)`
  abbrev pub mark : Text → redis.Store → redis.Store
  mark key s = redis.set key (text "1") backfill_ttl s

  -- The organizations, `WHERE status = 'ACTIVE'`. A state carries `count`.
  unfoldable pub warm_orgs : List Organization → ℕ × redis.Store → ℕ × redis.Store
  warm_orgs [] c = c
  warm_orgs (o ∷ os) (count, s) =
      warm_orgs os
        (if text_eq o.status status_active then (suc count, mark (org_key o.id) s) else (count, s))

  -- A row of an active key. A column that is NULL does not scan into a string, and the row is
  -- skipped.
  unfoldable pub warm_key : KeyRow → ℕ × redis.Store → ℕ × redis.Store
  warm_key row (count, s) = elim row.customer_id [
    | none ↦ (count, s)
    | some customer_id ↦ elim row.end_user_id [
      | none ↦ (count, s)
      | some end_user_id ↦
          let s' = mark (org_key row.org_id) s in
          (
            suc count,
            if is_empty end_user_id then s' else mark (end_user_key row.org_id end_user_id) s',
          )
    ]
  ]

  -- The keys, `WHERE status = 'active'`
  unfoldable pub warm_keys : List KeyRow → ℕ × redis.Store → ℕ × redis.Store
  unfolding warm_key
  warm_keys [] c = c
  warm_keys (row ∷ rows) c =
      warm_keys rows (if text_eq row.status (text "active") then warm_key row c else c)

  -- The memberships, `WHERE status = 'active'`
  unfoldable pub warm_end_users : List EndUser → ℕ × redis.Store → ℕ × redis.Store
  warm_end_users [] c = c
  warm_end_users (u ∷ us) (count, s) = warm_end_users us (
      if text_eq u.status (text "active")
      then (suc count, mark (end_user_key u.org_id u.id) s)
      else (count, s))

  -- A query that fails warms nothing.
  unfoldable pub warm_table : KeyTable → ℕ × redis.Store → ℕ × redis.Store
  unfolding warm_keys
  warm_table (ready rows) c = warm_keys rows c
  warm_table (refusing rows) c = warm_keys rows c
  warm_table _ c = c

  -- `warmAll`: the count that is logged, and the store.
  unfoldable pub warm_all : Postgres → KeyTable → redis.Store → ℕ × redis.Store
  unfolding warm_orgs warm_table warm_end_users
  warm_all absent keys s = (0, s)
  warm_all failing keys s = warm_table keys (0, s)
  warm_all (serving db) keys s =
      warm_end_users db.end_users (warm_table keys (warm_orgs db.organizations (0, s)))

  -- `SyncKey`
  unfoldable pub sync_key : Text → Text → Text → Text → Text → Text → redis.Store → redis.Store
  unfolding sync_value
  sync_key raw_key key_id org_id customer_id source_mode status s =
      redis.set (api_key_key raw_key) (sync_value key_id org_id customer_id source_mode status) 0 s

  -- `RevokeKey` of the daemon
  unfoldable pub revoke_key : Text → redis.Store → redis.Store
  revoke_key raw_key s = redis.del (api_key_key raw_key) s
