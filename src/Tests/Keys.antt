-- ===== src/Tests/Keys.antt =====
-- Runs of the key service, and its theorems at a concrete key.
use quantumbilling.Common.{
  ◌≢◌, true, is_any, none, if◌then◌else◌, ◌≡◌, refl, List, [], ◌∷◌, Text, text, text_eq, false,
  some, All,
}
use quantumbilling.Common.Outcome.{done}
use quantumbilling.Common.Int.{pos}
use quantumbilling.Common.Float.{finite}
use quantumbilling.Common.Digits.{hex, hex_digit}
use quantumbilling.Models.EventId.{new_uuid}
use quantumbilling.Platform.Redis.Memory.{memory, memory-RedisLaws}
use quantumbilling.Auth.{granted, validate_api_key}
use quantumbilling.Keys.{
  KeyRequest, KeyResponse, Packages, Draw, check_request, is_budget, store_key, create_key,
  revoke_key,
}
use quantumbilling.Keys.Table.{KeyRow, ready, mark_revoked}
use quantumbilling.Keys.Laws.{context_of, IsPlain}
use quantumbilling.Keys.Revoke.{status_of}
use quantumbilling.Keys.Api
use quantumbilling.Keys.Api.{Call, created, handle_keys, answer_created}
use quantumbilling.Byok
use quantumbilling.Byok.{Columns, insert_key, encrypt, CryptoLaws, register_provider_key}
use quantumbilling.Keys.Server.Providers.{Stored, serve-registered, serve_all, serve_all-NeedsId}
use quantumbilling.Keys.Server
use quantumbilling.Keys.Server.{ProviderRequest, Tools, State, serve, api}
use quantumbilling.Keys.Server.Laws.{key_path, Deleted, serve-Deleted, serve-Deleted_authenticates}
use quantumbilling.Samples.{empty_server}
use quantumbilling.Samples.Codec.{map_json, map_json-JsonLaws}

abbrev pub packages : Packages
packages = record {
  trim_space = λ s. s;
  parse_float = λ s. some (finite false 1 (pos 0));
  sha256_hex = λ s. s;
}

abbrev pub key_request : KeyRequest
key_request = record {
  org_id = text "o1";
  name = text "prod";
  customer_id = text "c1";
  end_user_id = [];
  source_mode = [];
  budget_limit_usd = [];
  rate_limit_rpm = pos 60;
  allowed_models = [];
}

abbrev pub draw : Draw
draw = record { key_bytes = some (171 ∷ 1 ∷ []); id_bytes = []; now = [] }

-- What the sample's key is.
abbrev pub response : KeyResponse
response =
    (store_key memory map_json packages (171 ∷ 1 ∷ []) [] (new_uuid []) key_request
      (ready [], empty_server)).0

pub creates :
    (create_key memory map_json packages draw key_request (ready [], empty_server)).0
    ≡ done response
unfolding create_key check_request is_budget text text_eq
creates = refl

pub plain : IsPlain (context_of response)
unfolding store_key text new_uuid hex hex_digit
plain = (refl, refl, refl, refl)

abbrev row : Text → Text → KeyRow
row id status = record {
  id = id;
  org_id = text "o1";
  customer_id = some (text "c1");
  end_user_id = some (text "u1");
  name = text "prod";
  key_hash = text "h";
  key_prefix = text "sk-live-000";
  source_mode = text "byok";
  status = status;
  created_at = text "now";
}

abbrev two_rows : List KeyRow
two_rows = row (text "k1") (text "active") ∷ row (text "k2") (text "active") ∷ []

abbrev marked_rows : List KeyRow
marked_rows = row (text "k1") (text "active") ∷ row (text "k2") (text "revoked") ∷ []

revokes : revoke_key (text "k2") (ready two_rows) ≡ (done tt, ready marked_rows)
unfolding revoke_key mark_revoked text text_eq
revokes = refl

abbrev provider_request : ProviderRequest
provider_request = record { org_id = text "o1"; provider = text "openai"; api_key = text "sk-1" }

-- The server of the keys API, which knows two bodies.
abbrev tools : Tools
tools = record {
  json = map_json;
  decode_key = λ body. if text_eq body (text "{key}") then some key_request else none;
  decode_provider = λ body. if text_eq body (text "{byok}") then some provider_request else none;
  clean_path = λ p. p;
  pkg = packages;
  crypto = record { seal = λ iv t. t; unseal = λ iv t. some t; to_lower = λ t. t };
}

-- The columns of a table that fills its column id itself, and of one that does not.
abbrev columns : Columns
columns = record { read_org = λ t. some t; read_provider = λ t. some t; takes = λ row. true }

abbrev strict_columns : Columns
strict_columns = record columns { takes = λ row. false }

abbrev state : State memory
state = record { keys = ready []; cache = empty_server; providers = Byok.ready columns [] }

abbrev post_key : Call
post_key = record { method = text "POST"; path = text "/v1/keys"; org_id = []; body = text "{key}" }

abbrev delete_key : Call
delete_key = record {
  method = text "DELETE";
  path = key_path memory tools response.id;
  org_id = [];
  body = [];
}

answers_created : (serve memory tools draw none post_key state).0 ≡ api (created response)
unfolding serve Server.route handle_keys answer_created create_key check_request is_budget text
    text_eq
answers_created = refl

serve-Deleted_example :
    Deleted memory tools response
      (serve memory tools draw none post_key state).1
      (serve memory tools draw none delete_key (serve memory tools draw none post_key state).1).1
      (serve memory tools draw none delete_key (serve memory tools draw none post_key state).1).0
serve-Deleted_example =
    serve-Deleted memory tools map_json-JsonLaws memory-RedisLaws draw draw none none post_key
      delete_key state response [] refl answers_created refl refl refl

serve-Deleted_authenticates_example :
    let t =
      (serve memory tools draw none delete_key (serve memory tools draw none post_key state).1).1 in
    ((marked : List KeyRow) × (t.keys ≡ ready marked)
      × (status_of response.id marked ≡ some (text "revoked")))
    × ((validate_api_key memory map_json response.raw_key t.cache).0
        ≡ granted (context_of response))
serve-Deleted_authenticates_example =
    serve-Deleted_authenticates memory tools map_json-JsonLaws memory-RedisLaws draw draw none none
      post_key delete_key state response [] refl refl plain answers_created refl refl refl

abbrev post_provider : Call
post_provider = record {
  method = text "POST";
  path = text "/v1/byok/config";
  org_id = [];
  body = text "{byok}";
}

crypto_laws : CryptoLaws tools.crypto
crypto_laws = record { unseal-seal = λ iv t. refl; to_lower_idem = λ s. refl }

answers_registered :
    (serve memory tools draw (some []) post_provider state).0
    ≡ api (Api.status 201 (text "registered"))
unfolding serve Server.route Server.handle_byok register_provider_key insert_key encrypt text
    text_eq is_any
answers_registered = refl

serve-registered_example :
    Stored memory tools crypto_laws columns []
      (some [])
      (text "{byok}")
      (serve memory tools draw (some []) post_provider state).1.providers
serve-registered_example =
    serve-registered memory tools crypto_laws draw (some []) post_provider state columns [] refl
      answers_registered

abbrev strict_state : State memory
strict_state = record state { providers = Byok.ready strict_columns [] }

serve_all-NeedsId_example :
    All
      (λ reply. reply ≢ api (Api.status 201 (text "registered")))
      (serve_all memory tools crypto_laws ((draw, some [], post_provider) ∷ []) strict_state).0
    × ((serve_all memory tools crypto_laws
          ((draw, some [], post_provider) ∷ [])
          strict_state).1.providers
        ≡ Byok.ready strict_columns [])
serve_all-NeedsId_example =
    serve_all-NeedsId memory tools crypto_laws ((draw, some [], post_provider) ∷ []) strict_state
      strict_columns [] refl (λ row. refl)
