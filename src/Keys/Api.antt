-- ===== src/Keys/Api.antt =====
-- engine/cmd/keys-api/main.go: the handlers of the keys API and their helpers on strings.
pub mod Laws
use quantumbilling.Common.{
  ℕ, zero, suc, ◌+◌, List, [], ◌∷◌, ◌++◌, Text, text, text_eq, is_empty, Bool, true, false, not,
  ◌&&◌, ◌||◌, ◌-◌, Option, none, some, ltb, leb, length, take, drop, if◌then◌else◌, map,
}
use quantumbilling.Common.Int.{ℤ, pos}
use quantumbilling.Models.Codec.{Json}
use quantumbilling.Platform.Redis.{Redis}
use quantumbilling.Common.Outcome.{Outcome, done, failed}
use quantumbilling.Keys.{
  KeyRequest, KeyResponse, KeyListItem, Packages, Draw, create_key, list_keys, revoke_key,
}
use quantumbilling.Keys.Table.{KeyTable}

-- The loop of `findSub` from the suffix `s` on.
unfoldable pub find_sub : Text → Text → Bool
find_sub [] sub = text_eq (take (length sub) []) sub
find_sub (c ∷ s) sub = text_eq (take (length sub) (c ∷ s)) sub || find_sub s sub

-- `contains`
unfoldable pub contains : Text → Text → Bool
unfolding find_sub
contains s substr =
    leb (length substr) (length s)
    && (text_eq s substr
        || (ltb (length substr) (length s)
            && (text_eq (take (length substr) s) substr
                || (text_eq (drop (length s - length substr) s) substr || find_sub s substr))))

-- `findIndex`, where none is -1
unfoldable pub find_index : Text → Text → Option ℕ
find_index [] sub = if text_eq (take (length sub) []) sub then some 0 else none
find_index (c ∷ s) sub =
    let rest = find_index s sub in
    if text_eq (take (length sub) (c ∷ s)) sub
    then some 0
    else elim rest [ none ↦ none | some i ↦ some (suc i) ]

-- `extractCode`
unfoldable pub extract_code : Text → Text
unfolding find_index
extract_code msg = elim (find_index msg (text ":")) [
  | some (suc i) ↦ take (suc i) msg
  | _ ↦ text "BAD_REQUEST"
]

-- The replies: an error envelope, a created key, a listing, a status.
pub data Answer : Type 0 where
  problem : ℕ → Text → Text → Answer
  created : KeyResponse → Answer
  listing : List KeyListItem → Answer
  status : ℕ → Text → Answer

-- A request: the method, the path, the query parameter org_id, the body.
pub record Call : Type 0 where
  pub method : Text
  pub path : Text
  pub org_id : Text
  pub body : Text

abbrev pub bad_body : Answer
bad_body = problem 400 (text "INVALID_JSON") (text "failed to parse body")

module _ (redis : Redis) (json : Json) (pkg : Packages) (decode : Text → Option KeyRequest) where
  -- What `handleKeys` makes of the result of `CreateKey`.
  unfoldable pub answer_created : Outcome KeyResponse → Answer
  unfolding contains extract_code
  answer_created (done resp) = created resp
  answer_created (failed message) =
      problem 400
        (if contains message (text "INVALID_") then extract_code message else text "BAD_REQUEST")
        message

  -- `handleKeys`
  unfoldable pub handle_keys :
      Draw → Call → KeyTable × redis.Store → Answer × KeyTable × redis.Store
  unfolding answer_created
  handle_keys draw r (table, s) =
      if text_eq r.method (text "POST")
      then elim (decode r.body) [
        | none ↦ (bad_body, table, s)
        | some req ↦
            let (outcome, table', s') = create_key redis json pkg draw req (table, s) in
            (answer_created outcome, table', s')
      ]
      else if text_eq r.method (text "GET")
      then (
        (if is_empty r.org_id
            then problem 400 (text "MISSING_ORG_ID") (text "org_id query param required")
            else elim (list_keys r.org_id (pos 100) 0 table) [
              | failed message ↦ problem 500 (text "INTERNAL_ERROR") message
              | done items ↦ listing items
            ]),
        table,
        s,
      )
      else (problem 405 (text "METHOD_NOT_ALLOWED") (text "only GET/POST"), table, s)

-- `handleKeyByID`, at a path below "/v1/keys/"
unfoldable pub handle_key_by_id : Call → KeyTable → Answer × KeyTable
handle_key_by_id r table =
    let key_id = drop 9 r.path in
    if not (text_eq r.method (text "DELETE"))
    then (problem 405 (text "METHOD_NOT_ALLOWED") (text "only DELETE"), table)
    else if is_empty key_id
    then (problem 400 (text "MISSING_KEY_ID") (text "key ID required"), table)
    else let (outcome, table') = revoke_key key_id table in
      (
        elim outcome [
          | failed message ↦ problem 404 (text "NOT_FOUND") message
          | done u ↦ status 200 (text "revoked")
        ],
        table',
      )
