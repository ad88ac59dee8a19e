-- ===== src/Keys.antt =====
-- engine/internal/keys/service.go: the creation, the listing and the revocation of API keys.
pub mod Table
pub mod Laws
pub mod Revoke
pub mod Listing
pub mod Api
pub mod Server
use quantumbilling.Common.{
  ℕ, ◌≤◌, List, [], ◌∷◌, ◌++◌, Text, text, text_eq, is_empty, Bool, true, false, not, ◌&&◌, ◌||◌,
  Option, none, some, ltb, leb, length, take, drop, if◌then◌else◌, map,
}
use quantumbilling.Common.Outcome.{Outcome, done, failed}
use quantumbilling.Common.Int.{ℤ, pos, negsuc, is_neg, pos_part}
use quantumbilling.Common.Float.{Float64, lt_zero}
use quantumbilling.Common.Digits.{hex}
use quantumbilling.Models.EventId.{new_uuid}
use quantumbilling.Models.Codec.{Json}
use quantumbilling.Platform.Redis.{Redis}
use quantumbilling.Keys.Table.{
  KeyRow, KeyTable, missing, broken, ready, refusing, insert_row, rows_of, mark_revoked,
}

pub record KeyRequest : Type 0 where
  pub org_id : Text
  pub name : Text
  pub customer_id : Text
  pub end_user_id : Text
  pub source_mode : Text
  pub budget_limit_usd : Text
  pub rate_limit_rpm : ℤ
  pub allowed_models : List Text

pub record KeyResponse : Type 0 where
  pub id : Text
  pub key_prefix : Text
  pub raw_key : Text
  pub org_id : Text
  pub customer_id : Text
  pub source_mode : Text
  pub status : Text
  pub budget_limit : Text
  pub rate_limit : ℤ
  pub models : List Text

pub record KeyListItem : Type 0 where
  pub id : Text
  pub key_prefix : Text
  pub name : Text
  pub org_id : Text
  pub source_mode : Text
  pub status : Text
  pub created_at : Text

-- The packages that the service calls: `strings.TrimSpace`, `strconv.ParseFloat` (none is its
-- error), `crypto/sha256` with its hexadecimal digits.
pub record Packages : Type 0 where
  pub trim_space : Text → Text
  pub parse_float : Text → Option Float64
  pub sha256_hex : Text → Text

-- What a creation draws from crypto/rand: 32 bytes for the key, none on an error, and 16 bytes for
-- the identifier, whose error is dropped. `now` is what NOW() gives, in RFC 3339.
pub record Draw : Type 0 where
  pub key_bytes : Option (List ℕ)
  pub id_bytes : List ℕ
  pub now : Text

abbrev pub key_marker : Text
key_marker = text "sk-live-"

-- `generateKey` over the random bytes: the key and its prefix.
unfoldable pub generate_key : List ℕ → Text × Text
unfolding hex
generate_key bytes = let raw_key = key_marker ++ hex bytes in (raw_key, take 11 raw_key)

-- `nullIfEmpty`
unfoldable pub null_if_empty : Text → Option Text
null_if_empty s = if is_empty s then none else some s

abbrev pub default_mode : KeyRequest → Text
default_mode req = if is_empty req.source_mode then text "direct_ingest" else req.source_mode

-- The budget of a request: absent, or read as a number that is not below zero.
unfoldable pub is_budget : Packages → Text → Bool
is_budget pkg s =
    is_empty s || elim (pkg.parse_float s) [ none ↦ false | some val ↦ not (lt_zero val) ]

-- The checks of `CreateKey`, in their order: the first error, or none.
unfoldable pub check_request : Packages → KeyRequest → Option Text
unfolding is_budget
check_request pkg req =
    let mode = default_mode req in
    if not (text_eq mode (text "direct_ingest"))
      && (not (text_eq mode (text "virtual_key")) && not (text_eq mode (text "byok")))
    then some (text "INVALID_SOURCE_MODE: must be direct_ingest, virtual_key, or byok")
    else if ltb (length (pkg.trim_space req.name)) 3 || ltb 100 (length (pkg.trim_space req.name))
    then some (text "INVALID_KEY_NAME: must be 3-100 characters")
    else if not (is_budget pkg req.budget_limit_usd)
    then some (text "INVALID_BUDGET_LIMIT: must be a non-negative decimal string")
    else if is_neg req.rate_limit_rpm
    then some (text "INVALID_RATE_LIMIT: must be non-negative")
    else none

-- The context that is cached for a key.
abbrev pub context_map : Text → KeyRequest → List (Text × Text)
context_map id req =
    (text "key_id", id)
    ∷ (text "org_id", req.org_id)
    ∷ (text "customer_id", req.customer_id)
    ∷ (text "source_mode", default_mode req)
    ∷ (text "status", text "active")
    ∷ []

-- The row that is inserted.
abbrev pub new_row : Packages → Text → Text → Text → Text → KeyRequest → KeyRow
new_row pkg now id raw_key prefix req = record {
  id = id;
  org_id = req.org_id;
  customer_id = null_if_empty req.customer_id;
  end_user_id = null_if_empty req.end_user_id;
  name = pkg.trim_space req.name;
  key_hash = pkg.sha256_hex raw_key;
  key_prefix = prefix;
  source_mode = default_mode req;
  status = text "active";
  created_at = now;
}

module _ (redis : Redis) (json : Json) (pkg : Packages) where
  -- Past the checks, with the bytes of the key.
  unfoldable pub store_key :
      List ℕ
      → Text
      → Text
      → KeyRequest
      → KeyTable × redis.Store
      → KeyResponse × KeyTable × redis.Store
  unfolding generate_key insert_row
  store_key bytes now id req (table, s) =
      let (raw_key, prefix) = generate_key bytes in
      (
        record {
          id = id;
          key_prefix = prefix;
          raw_key = raw_key;
          org_id = req.org_id;
          customer_id = req.customer_id;
          source_mode = default_mode req;
          status = text "active";
          budget_limit = req.budget_limit_usd;
          rate_limit = req.rate_limit_rpm;
          models = req.allowed_models;
        },
        insert_row (new_row pkg now id raw_key prefix req) table,
        redis.set (text "apikey:" ++ raw_key) (json.marshal_map (context_map id req)) 0 s,
      )

  -- `CreateKey`: an insert that fails is logged, and the key is cached all the same.
  unfoldable pub create_key :
      Draw → KeyRequest → KeyTable × redis.Store → Outcome KeyResponse × KeyTable × redis.Store
  unfolding check_request store_key
  create_key draw req (table, s) = elim (check_request pkg req) [
    | some message ↦ (failed message, table, s)
    | none ↦ elim draw.key_bytes [
      | none ↦ (failed (text "key generation failed: "), table, s)
      | some bytes ↦
          let (resp, table', s') =
            store_key bytes draw.now (new_uuid draw.id_bytes) req (table, s) in
          (done resp, table', s')
    ]
  ]

-- The limit that `ListKeys` hands to the query.
unfoldable pub clamp_limit : ℤ → ℕ
clamp_limit limit =
    let positive = if leb (pos_part limit) 0 then 100 else pos_part limit in
    if ltb 1000 positive then 1000 else positive

-- A row as it is listed: no hash.
unfoldable pub list_item : KeyRow → KeyListItem
list_item row = record {
  id = row.id;
  key_prefix = row.key_prefix;
  name = row.name;
  org_id = row.org_id;
  source_mode = row.source_mode;
  status = row.status;
  created_at = row.created_at;
}

-- The rows that the query of `ListKeys` gives, as items.
unfoldable pub page : Text → ℤ → ℕ → List KeyRow → List KeyListItem
unfolding rows_of clamp_limit
page org_id limit offset rows =
    map list_item (take (clamp_limit limit) (drop offset (rows_of org_id rows)))

-- `ListKeys`, for an offset that is not negative
unfoldable pub list_keys : Text → ℤ → ℕ → KeyTable → Outcome (List KeyListItem)
unfolding page
list_keys org_id limit offset missing = failed (text "postgres not available")
list_keys org_id limit offset broken = failed (text "query failed")
list_keys org_id limit offset (ready rows) = done (page org_id limit offset rows)
list_keys org_id limit offset (refusing rows) = done (page org_id limit offset rows)

-- `RevokeKey`: the row is marked; Redis is not called.
unfoldable pub revoke_key : Text → KeyTable → Outcome (Unit {0}) × KeyTable
unfolding mark_revoked
revoke_key key_id missing = (failed (text "postgres not available"), missing)
revoke_key key_id broken = (failed (text "key not found or already revoked: "), broken)
revoke_key key_id (ready rows) = elim (mark_revoked key_id rows) [
  | none ↦ (failed (text "key not found or already revoked: "), ready rows)
  | some rows' ↦ (done tt, ready rows')
]
revoke_key key_id (refusing rows) = elim (mark_revoked key_id rows) [
  | none ↦ (failed (text "key not found or already revoked: "), refusing rows)
  | some rows' ↦ (done tt, refusing rows')
]
