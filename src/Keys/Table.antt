-- ===== src/Keys/Table.antt =====
-- The table developer.api_keys with the three statements of engine/internal/keys/service.go. The
-- newest row stands first, which is the order of the listing.
use quantumbilling.Common.{List, [], ◌∷◌, Text, text, text_eq, Option, none, some, if◌then◌else◌}

pub record KeyRow : Type 0 where
  pub id : Text
  pub org_id : Text
  pub customer_id : Option Text
  pub end_user_id : Option Text
  pub name : Text
  pub key_hash : Text
  pub key_prefix : Text
  pub source_mode : Text
  pub status : Text
  pub created_at : Text

-- A handle: nil, one whose statements fail, one that holds the rows and takes the row of an INSERT,
-- or one that holds the rows and refuses that row, as the types of its columns and its constraints
-- do with some values.
pub data KeyTable : Type 0 where
  missing : KeyTable
  broken : KeyTable
  ready : List KeyRow → KeyTable
  refusing : List KeyRow → KeyTable

-- `INSERT INTO developer.api_keys`, whose error is logged
unfoldable pub insert_row : KeyRow → KeyTable → KeyTable
insert_row row missing = missing
insert_row row broken = broken
insert_row row (ready rows) = ready (row ∷ rows)
insert_row row (refusing rows) = refusing rows

-- `WHERE org_id = $1 ORDER BY created_at DESC`
unfoldable pub rows_of : Text → List KeyRow → List KeyRow
rows_of org_id [] = []
rows_of org_id (row ∷ rows) =
    let rest = rows_of org_id rows in if text_eq row.org_id org_id then row ∷ rest else rest

-- `UPDATE ... SET status = 'revoked' WHERE id = $1 RETURNING key_hash` on the primary key, where
-- none is `sql.ErrNoRows`. It does not ask for the status.
unfoldable pub mark_revoked : Text → List KeyRow → Option (List KeyRow)
mark_revoked key_id [] = none
mark_revoked key_id (row ∷ rows) =
    let rest = mark_revoked key_id rows in
    if text_eq row.id key_id
    then some (record row { status = text "revoked" } ∷ rows)
    else elim rest [ none ↦ none | some rows' ↦ some (row ∷ rows') ]
