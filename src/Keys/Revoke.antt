-- ===== src/Keys/Revoke.antt =====
-- What `RevokeKey` of engine/internal/keys/service.go does, and what it leaves.
use quantumbilling.Common.{
  ◌≡◌, refl, List, [], ◌∷◌, Text, text, text_eq, text_eq_refl, true, false, Option, none, some,
  Option-cases, Bool-cases, inl, inr, arith, if◌then◌else◌,
}
use quantumbilling.Common.Outcome.{done}
use quantumbilling.Keys.{revoke_key}
use quantumbilling.Keys.Table.{KeyRow, ready, mark_revoked}

-- The status of the first row with an identifier.
abbrev pub status_of : Text → List KeyRow → Option Text
status_of key_id [] = none
status_of key_id (row ∷ rows) =
    let rest = status_of key_id rows in if text_eq row.id key_id then some row.status else rest

abbrev pub revoked : KeyRow → KeyRow
revoked row = record row { status = text "revoked" }

-- Where the row stands that a revocation marks.
data Marked (key_id : Text) (row : KeyRow) (rows rows' : List KeyRow) : Type 0 where
  here : text_eq row.id key_id ≡ true → rows' ≡ revoked row ∷ rows → Marked key_id row rows rows'
  below :
      (xs : List KeyRow)
      → text_eq row.id key_id ≡ false
      → mark_revoked key_id rows ≡ some xs
      → rows' ≡ row ∷ xs
      → Marked key_id row rows rows'

marked :
    (key_id : Text) (row : KeyRow) (rows rows' : List KeyRow)
    → mark_revoked key_id (row ∷ rows) ≡ some rows'
    → Marked key_id row rows rows'
unfolding mark_revoked
marked key_id row rows rows' h = elim (Bool-cases (text_eq row.id key_id)) [
  | inl p ↦ here p (ground (arith, p, h))
  | inr p ↦ elim (Option-cases (mark_revoked key_id rows)) [
    | inl e ↦ ground (arith, p, e, h)
    | inr (xs, e) ↦ below xs p e (ground (arith, p, e, h))
  ]
]

mark_revoked-status :
    (key_id : Text) (rows rows' : List KeyRow)
    → mark_revoked key_id rows ≡ some rows'
    → status_of key_id rows' ≡ some (text "revoked")
unfolding mark_revoked
mark_revoked-status key_id [] rows' h = ground (arith, h)
mark_revoked-status key_id (row ∷ rows) rows' h = elim (marked key_id row rows rows' h) [
  | here p e ↦ rw (e, p) refl
  | below xs p e q ↦ rw (q, p) (mark_revoked-status key_id rows xs e)
]

-- A marked row is found again: the statement does not ask for the status.
mark_revoked_again :
    (key_id : Text) (rows rows' : List KeyRow)
    → mark_revoked key_id rows ≡ some rows'
    → mark_revoked key_id rows' ≡ some rows'
unfolding mark_revoked
mark_revoked_again key_id [] rows' h = ground (arith, h)
mark_revoked_again key_id (row ∷ rows) rows' h = elim (marked key_id row rows rows' h) [
  | here p e ↦ rw (e, p, mark_revoked) refl
  | below xs p e q ↦ rw (q, p, mark_revoked_again key_id rows xs e, mark_revoked) refl
]

-- A revocation that succeeds marks the key, and the same revocation succeeds once more and changes
-- nothing: a key that is revoked already is not reported.
pub revoke_key_again :
    (key_id : Text) (rows rows' : List KeyRow)
    → revoke_key key_id (ready rows) ≡ (done tt, ready rows')
    → (status_of key_id rows' ≡ some (text "revoked"))
      × (revoke_key key_id (ready rows') ≡ (done tt, ready rows'))
unfolding revoke_key
revoke_key_again key_id rows rows' h =
    let e : mark_revoked key_id rows ≡ some rows' = ground (arith, h) in
    (
      mark_revoked-status key_id rows rows' e,
      rw (mark_revoked_again key_id rows rows' e, revoke_key) refl,
    )

pub revoke_key-head :
    (row : KeyRow) (rows : List KeyRow)
    → revoke_key row.id (ready (row ∷ rows)) ≡ (done tt, ready (revoked row ∷ rows))
unfolding revoke_key mark_revoked
revoke_key-head row rows = rw (text_eq_refl row.id, revoke_key) refl
