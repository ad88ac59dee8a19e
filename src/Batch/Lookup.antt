-- ===== src/Batch/Lookup.antt =====
-- The existence checks of a batch in engine/internal/handler/batch_handler.go: the distinct
-- organizations and end-user pairs, one pipelined EXISTS each, and Postgres for what is missing.
pub mod Split
pub mod Unique
pub mod Sound
pub mod EndUsers
use quantumbilling.Common.{
  ℕ, List, [], ◌∷◌, ◌++◌, Text, text, is_any, is_empty, Bool, true, false, ◌||◌, ◌==◌, Option, none,
  some, if◌then◌else◌, map,
}
use quantumbilling.Models.{UsageEvent}
use quantumbilling.Platform.Redis.{Redis}
use quantumbilling.Platform.Postgres.{Postgres, EuRecord, batch_org_postgres, batch_eu_pg}
use quantumbilling.Ingest.Verify.{org_key, end_user_key, backfill_ttl, is_hit}
use quantumbilling.Batch.Process.{pair_of}

-- The loop of `collectUniqueOrgIDs`: `result` holds what was seen.
unfoldable pub collect_orgs : List UsageEvent → List Text → List Text
collect_orgs [] result = result
collect_orgs (e ∷ es) result =
    collect_orgs es (if is_any e.org_id result then result else result ++ e.org_id ∷ [])

unfoldable pub collect_unique_org_ids : List UsageEvent → List Text
unfolding collect_orgs
collect_unique_org_ids es = collect_orgs es []

-- The loop of `collectUniqueEUPairs`
unfoldable pub collect_pairs : List UsageEvent → List Text → List Text
collect_pairs [] result = result
collect_pairs (e ∷ es) result = collect_pairs es (
    if is_empty e.end_user_id || is_any (pair_of e) result
    then result
    else result ++ pair_of e ∷ [])

unfoldable pub collect_unique_eu_pairs : List UsageEvent → List Text
unfolding collect_pairs
collect_unique_eu_pairs es = collect_pairs es []

-- The loop of `splitPair`, which looks for the last colon: the parts around the last colon of a
-- text, if it has one.
unfoldable pub last_colon : Text → Option (Text × Text)
last_colon [] = none
last_colon (c ∷ s) = elim (last_colon s) [
  | some (before, behind) ↦ some (c ∷ before, behind)
  | none ↦ if c == b':' then some ([], s) else none
]

unfoldable pub split_pair : Text → Text × Text
unfolding last_colon
split_pair pair = elim (last_colon pair) [ some parts ↦ parts | none ↦ (pair, []) ]

-- What a pipeline of EXISTS found: the entries that are cached, those that are not, and the store.
pub record Found (redis : Redis) : Type 0 where
  pub valid : List Text
  pub missing : List Text
  pub store : redis.Store

-- The key of a pair, and what a row of the fallback stands for.
abbrev pub pair_key : Text → Text
pair_key pair = let (org_id, end_user_id) = split_pair pair in end_user_key org_id end_user_id

abbrev pub row_pair : EuRecord → Text
row_pair row = row.org_id ++ (b':' ∷ row.end_user_id)

abbrev pub row_key : EuRecord → Text
row_key row = end_user_key row.org_id row.end_user_id

module _ (redis : Redis) where
  -- The pipeline over the entries, where `key_of` gives the key of an entry.
  unfoldable pub pipeline : (Text → Text) → List Text → redis.Store → Found redis
  pipeline key_of [] s = record { valid = []; missing = []; store = s }
  pipeline key_of (x ∷ xs) s =
      let (r, s') = redis.exists (key_of x) s in
      let rest = pipeline key_of xs s' in
      if is_hit r
      then record { valid = x ∷ rest.valid; missing = rest.missing; store = rest.store }
      else record { valid = rest.valid; missing = x ∷ rest.missing; store = rest.store }

  -- The rows of the fallback are written back.
  unfoldable pub backfill : List Text → redis.Store → redis.Store
  backfill [] s = s
  backfill (k ∷ ks) s = backfill ks (redis.set k (text "1") backfill_ttl s)

  unfoldable pub batch_org_check : Postgres → List Text → redis.Store → List Text × redis.Store
  unfolding pipeline backfill
  batch_org_check pg org_ids s =
      let found = pipeline org_key org_ids s in
      let rows = batch_org_postgres pg found.missing in
      (found.valid ++ rows, backfill (map org_key rows) found.store)

  unfoldable pub batch_eu_check : Postgres → List Text → redis.Store → List Text × redis.Store
  unfolding pipeline backfill
  batch_eu_check pg pairs s =
      let found = pipeline pair_key pairs s in
      let rows =
        batch_eu_pg pg (map (λ p. (split_pair p).0) found.missing)
          (map (λ p. (split_pair p).1) found.missing) in
      (found.valid ++ map row_pair rows, backfill (map row_key rows) found.store)
