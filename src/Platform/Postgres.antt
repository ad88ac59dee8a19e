-- ===== src/Platform/Postgres.antt =====
-- The tables that the engine reads, with the queries of engine/internal/postgres/fallback.go and of
-- `batchOrgPostgres` and `batchEUPG` in engine/internal/handler/batch_handler.go.
use quantumbilling.Common.{
  List, [], ◌∷◌, Text, text, text_eq, is_any, Bool, false, ◌&&◌, ◌||◌, Option, none, some,
  if◌then◌else◌,
}

-- identity.organizations, whose id is a uuid: a row holds its canonical text.
pub record Organization : Type 0 where
  pub id : Text
  pub status : Text

-- customer.end_users, where id and org_id are uuids
pub record EndUser : Type 0 where
  pub id : Text
  pub org_id : Text
  pub status : Text

-- The tables, and how Postgres reads a text as a uuid: its canonical text, none where the input has
-- no such form and the query fails.
pub record Tables : Type 0 where
  pub read_uuid : Text → Option Text
  pub organizations : List Organization
  pub end_users : List EndUser

-- A handle: nil, one whose queries fail, or one that serves its tables.
pub data Postgres : Type 0 where
  absent : Postgres
  failing : Postgres
  serving : Tables → Postgres

abbrev pub status_active : Text
status_active = text "ACTIVE"

-- `EXISTS(SELECT 1 ... WHERE id = $1 AND status = 'ACTIVE')`
unfoldable pub has_org : Text → List Organization → Bool
has_org org_id [] = false
has_org org_id (o ∷ os) =
    (text_eq o.id org_id && text_eq o.status status_active) || has_org org_id os

-- `EXISTS(SELECT 1 ... WHERE id = $1 AND org_id = $2)`
unfoldable pub has_end_user : Text → Text → List EndUser → Bool
has_end_user org_id end_user_id [] = false
has_end_user org_id end_user_id (u ∷ us) =
    (text_eq u.id end_user_id && text_eq u.org_id org_id) || has_end_user org_id end_user_id us

-- `OrgExists`, where `none` is the error. A nil handle is not passed.
unfoldable pub org_exists : Postgres → Text → Option Bool
unfolding has_org
org_exists (serving db) org_id = elim (db.read_uuid org_id) [
  | none ↦ none
  | some uuid ↦ some (has_org uuid db.organizations)
]
org_exists _ org_id = none

-- `EndUserInOrg`
unfoldable pub end_user_in_org : Postgres → Text → Text → Option Bool
unfolding has_end_user
end_user_in_org (serving db) org_id end_user_id = elim (db.read_uuid end_user_id) [
  | none ↦ none
  | some uuid ↦ elim (db.read_uuid org_id) [
    | none ↦ none
    | some org_uuid ↦ some (has_end_user org_uuid uuid db.end_users)
  ]
]
end_user_in_org _ org_id end_user_id = none

-- `pq.Array` as a uuid[]: one text that is no uuid fails the whole query.
unfoldable pub read_uuids : (Text → Option Text) → List Text → Option (List Text)
read_uuids read [] = some []
read_uuids read (t ∷ ts) = elim (read t) [
  | none ↦ none
  | some uuid ↦ elim (read_uuids read ts) [ none ↦ none | some uuids ↦ some (uuid ∷ uuids) ]
]

-- The rows of a query, where an error gives none.
abbrev pub rows_of : {A : Type 0} → Option (List A) → List A
rows_of none = []
rows_of (some rows) = rows

-- `SELECT id ... WHERE id = ANY($1) AND status = 'ACTIVE'`
unfoldable pub select_orgs : List Text → List Organization → List Text
unfolding is_any
select_orgs ids [] = []
select_orgs ids (o ∷ os) =
    let rest = select_orgs ids os in
    if is_any o.id ids && text_eq o.status status_active then o.id ∷ rest else rest

-- The query of `batchOrgPostgres`, where `none` is its error
unfoldable pub query_orgs : Tables → List Text → Option (List Text)
unfolding select_orgs read_uuids
query_orgs db org_ids = elim (read_uuids db.read_uuid org_ids) [
  | none ↦ none
  | some ids ↦ some (select_orgs ids db.organizations)
]

-- `batchOrgPostgres`: an error gives no rows.
unfoldable pub batch_org_postgres : Postgres → List Text → List Text
unfolding query_orgs
batch_org_postgres (serving db) org_ids = rows_of (query_orgs db org_ids)
batch_org_postgres _ org_ids = []

pub record EuRecord : Type 0 where
  pub org_id : Text
  pub end_user_id : Text

-- `SELECT org_id, id ... WHERE id = ANY($1) AND org_id = ANY($2)`
unfoldable pub select_end_users : List Text → List Text → List EndUser → List EuRecord
unfolding is_any
select_end_users org_ids eu_ids [] = []
select_end_users org_ids eu_ids (u ∷ us) =
    let rest = select_end_users org_ids eu_ids us in
    if is_any u.id eu_ids && is_any u.org_id org_ids
    then record { org_id = u.org_id; end_user_id = u.id } ∷ rest
    else rest

-- The query of `batchEUPG`
unfoldable pub query_end_users : Tables → List Text → List Text → Option (List EuRecord)
unfolding select_end_users read_uuids
query_end_users db org_ids eu_ids = elim (read_uuids db.read_uuid eu_ids) [
  | none ↦ none
  | some ids ↦ elim (read_uuids db.read_uuid org_ids) [
    | none ↦ none
    | some orgs ↦ some (select_end_users orgs ids db.end_users)
  ]
]

-- `batchEUPG`
unfoldable pub batch_eu_pg : Postgres → List Text → List Text → List EuRecord
unfolding query_end_users
batch_eu_pg (serving db) org_ids eu_ids = rows_of (query_end_users db org_ids eu_ids)
batch_eu_pg _ org_ids eu_ids = []
