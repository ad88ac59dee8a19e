-- ===== src/Keys/Listing.antt =====
-- What `ListKeys` of engine/internal/keys/service.go returns.
use quantumbilling.Common.{◌≡◌, Text}
use quantumbilling.Keys.{KeyListItem}
use quantumbilling.Keys.Table.{KeyRow}

-- An item of an organization.
abbrev pub IsOf : Text → KeyListItem → Type 0
IsOf org_id item = item.org_id ≡ org_id

abbrev IsRowOf : Text → KeyRow → Type 0
IsRowOf org_id row = row.org_id ≡ org_id
