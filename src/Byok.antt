-- ===== src/Byok.antt =====
-- engine/internal/byok/service.go: the provider keys of an organization, encrypted in
-- security.byok_provider_keys.
pub mod Laws
use quantumbilling.Common.{
  is_empty, ℕ, List, [], ◌∷◌, ◌++◌, Text, text, text_eq, is_any, Bool, true, false, not, ◌&&◌,
  Option, none, some, ◌≡◌, if◌then◌else◌,
}
use quantumbilling.Settings.{Os}
use quantumbilling.Common.Outcome.{Outcome, done, failed}

-- `resolveMasterKey`, with SHA-256: the 32 bytes of the key that the service is made with.
unfoldable pub resolve_master_key : Os → (Text → Text) → Text
resolve_master_key os sha256 = sha256 (
    if is_empty (os.get_env (text "BYOK_MASTER_KEY"))
    then text "default-byok-master-key-fallback-32b"
    else os.get_env (text "BYOK_MASTER_KEY"))

-- crypto/aes and crypto/cipher in the mode GCM under the master key, and `strings.ToLower`.
pub record Crypto : Type 0 where
  pub seal : Text → Text → Text
  -- none if the authentication fails
  pub unseal : Text → Text → Option Text
  pub to_lower : Text → Text

-- `seal iv plaintext` and `unseal iv ciphertext`: documented is that one undoes the other.
pub record CryptoLaws (crypto : Crypto) : Type 0 where
  pub unseal-seal :
      (iv plaintext : Text) → crypto.unseal iv (crypto.seal iv plaintext) ≡ some plaintext
  pub to_lower_idem : (s : Text) → crypto.to_lower (crypto.to_lower s) ≡ crypto.to_lower s

pub record ProviderKey : Type 0 where
  pub org_id : Text
  pub provider : Text
  pub encrypted_key : Text
  pub key_iv : Text

-- The bytes of the dash in a message.
abbrev pub em_dash : Text
em_dash = 226 ∷ 128 ∷ 148 ∷ []

-- What Postgres makes of the values of a statement: how the types of org_id (uuid) and of provider
-- (an enumeration) read a text, none where they have no such value and the statement fails, and
-- whether the constraints of the table take a row in whose column id nothing was put.
pub record Columns : Type 0 where
  pub read_org : Text → Option Text
  pub read_provider : Text → Option Text
  pub takes : ProviderKey → Bool

-- A handle: nil, one whose statements fail, or one that holds the rows.
pub data ProviderTable : Type 0 where
  missing : ProviderTable
  broken : ProviderTable
  ready : Columns → List ProviderKey → ProviderTable

abbrev pub providers : List Text
providers = text "openai" ∷ text "anthropic" ∷ text "google" ∷ text "azure" ∷ text "cohere" ∷ []

-- Whether a row has the primary key (org_id, provider).
abbrev pub is_at : Text → Text → ProviderKey → Bool
is_at org_id provider row = text_eq row.org_id org_id && text_eq row.provider provider

-- `ON CONFLICT (org_id, provider) DO UPDATE`
unfoldable pub upsert : ProviderKey → List ProviderKey → List ProviderKey
upsert new [] = new ∷ []
upsert new (row ∷ rows) =
    let rest = upsert new rows in
    if is_at new.org_id new.provider row then new ∷ rows else row ∷ rest

-- The row that an INSERT of these values is about.
abbrev pub row_of : Text → Text → Text × Text → ProviderKey
row_of org provider (encrypted, iv) = record {
  org_id = org;
  provider = provider;
  encrypted_key = encrypted;
  key_iv = iv;
}

-- `INSERT INTO security.byok_provider_keys ...`, where none is an error
unfoldable pub insert_key :
    Columns → Text → Text → Text × Text → List ProviderKey → Option (List ProviderKey)
unfolding upsert
insert_key columns org_id provider sealed rows = elim (columns.read_org org_id) [
  | none ↦ none
  | some org ↦ elim (columns.read_provider provider) [
    | none ↦ none
    | some name ↦
        if columns.takes (row_of org name sealed)
        then some (upsert (row_of org name sealed) rows)
        else none
  ]
]

-- The rows with org_id and provider
unfoldable pub find : Text → Text → List ProviderKey → Option ProviderKey
find org_id provider [] = none
find org_id provider (row ∷ rows) =
    let rest = find org_id provider rows in if is_at org_id provider row then some row else rest

module _ (crypto : Crypto) where
  -- `encrypt`, where `iv` is what crypto/rand gives, none on an error: the ciphertext and its nonce.
  -- The master key is 32 bytes long, so that `aes.NewCipher` takes it.
  unfoldable pub encrypt : Option Text → Text → Option (Text × Text)
  encrypt none plaintext = none
  encrypt (some iv) plaintext = some (crypto.seal iv plaintext, iv)

  -- `decrypt`
  unfoldable pub decrypt : Text → Text → Outcome Text
  decrypt ciphertext iv = elim (crypto.unseal iv ciphertext) [
    | none ↦ failed (text "GCM authentication failed: ")
    | some plaintext ↦ done plaintext
  ]

  -- `RegisterProviderKey`
  unfoldable pub register_provider_key :
      Option Text → Text → Text → Text → ProviderTable → Outcome (Unit {0}) × ProviderTable
  unfolding insert_key encrypt
  register_provider_key iv org_id provider api_key table =
      let lower = crypto.to_lower provider in
      if not (is_any lower providers)
      then (failed (text "UNSUPPORTED_PROVIDER: " ++ lower), table)
      else elim (encrypt iv api_key) [
        | none ↦ (failed (text "encryption failed: "), table)
        | some sealed ↦ elim table [
          | missing ↦ (done tt, missing)
          | broken ↦ (failed (text "postgres insert failed: "), broken)
          | ready columns rows ↦ elim (insert_key columns org_id lower sealed rows) [
            | none ↦ (failed (text "postgres insert failed: "), ready columns rows)
            | some rows' ↦ (done tt, ready columns rows')
          ]
        ]
      ]

  -- `GetProviderKey`, where a text that its column cannot read makes the query fail
  unfoldable pub get_provider_key : Text → Text → ProviderTable → Outcome Text
  unfolding find decrypt
  get_provider_key org_id provider missing = failed (text "postgres not available")
  get_provider_key org_id provider broken = failed (text "BYOK lookup failed: ")
  get_provider_key org_id provider (ready columns rows) = elim (columns.read_org org_id) [
    | none ↦ failed (text "BYOK lookup failed: ")
    | some org ↦ elim (columns.read_provider provider) [
      | none ↦ failed (text "BYOK lookup failed: ")
      | some name ↦ elim (find org name rows) [
        | none ↦
            failed
              (text "BYOK key not found for org=" ++ (org_id ++ (text " provider=" ++ provider)))
        | some row ↦ elim (decrypt row.encrypted_key row.key_iv) [
          | failed why ↦ failed (
              text "decryption failed "
              ++ (em_dash ++ (text " key may be corrupted or master key changed: " ++ why)))
          | done raw ↦ done raw
        ]
      ]
    ]
  ]
