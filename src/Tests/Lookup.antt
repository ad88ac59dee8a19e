-- ===== src/Tests/Lookup.antt =====
-- The existence checks of a batch, at concrete tables.
use quantumbilling.Common.{
  ◌≡◌, refl, Text, List, [], ◌∷◌, text, text_eq, is_any, true, arith, some, none, All, ◌&&◌,
}
use quantumbilling.Platform.Redis.Memory.{memory, memory-RedisLaws, lookup}
use quantumbilling.Platform.Postgres.{Tables, has_end_user, Postgres, serving}
use quantumbilling.Ingest.Verify.{verify_end_user, verify_org}
use quantumbilling.Batch.Process.Duplicates.{is_held}
use quantumbilling.Batch.Lookup.{batch_org_check, batch_eu_check, pair_key, split_pair, last_colon}
use quantumbilling.Common.Search.{LacksColon}
use quantumbilling.Batch.Lookup.EndUsers.{
  pair, AreCanonical, batch_eu_check_malformed, ServesPlain, batch_eu_check-verify_end_user,
}
use quantumbilling.Batch.Lookup.Sound.{IsCanonical, batch_org_check-verify_org}
use quantumbilling.Samples.{read_id, server}

-- An end user that only Postgres has, beside one of another organization.
abbrev tables : Tables
tables = record {
  read_uuid = read_id;
  organizations = record { id = text "o1"; status = text "ACTIVE" } ∷ [];
  end_users =
      record { id = text "u1"; org_id = text "o2"; status = text "ACTIVE" }
      ∷ record { id = text "u1"; org_id = text "o1"; status = text "ACTIVE" }
      ∷ [];
}

abbrev with_users : Postgres
with_users = serving tables

orgs-IsCanonical : All (IsCanonical with_users) (text "o1" ∷ text "o2" ∷ [])
unfolding text text_eq
orgs-IsCanonical = (refl, (refl, tt))

batch_org_check-verify_org_example :
    is_any (text "o1") (batch_org_check memory with_users (text "o1" ∷ text "o2" ∷ []) server).0
    ≡ is_any (text "o1") (text "o1" ∷ text "o2" ∷ [])
      && (verify_org memory with_users (text "o1") server).0
batch_org_check-verify_org_example =
    batch_org_check-verify_org memory memory-RedisLaws with_users (text "o1" ∷ text "o2" ∷ [])
      (text "o1") server refl orgs-IsCanonical

users_plain : ServesPlain with_users
unfolding text
users_plain = ground arith

user_plain : LacksColon (text "u1")
unfolding text
user_plain = ground arith

pairs_canonical : AreCanonical with_users (text "o1:u1" ∷ [])
unfolding split_pair last_colon text text_eq
pairs_canonical = ((refl, tt), (refl, tt))

pair_asked : is_any (pair (text "o1") (text "u1")) (text "o1:u1" ∷ []) ≡ true
unfolding is_any text text_eq
pair_asked = refl

batch_eu_check-verify_end_user_example :
    is_any
      (pair (text "o1") (text "u1"))
      (batch_eu_check memory with_users (text "o1:u1" ∷ []) server).0
    ≡ (verify_end_user memory with_users (text "o1") (text "u1") server).0
batch_eu_check-verify_end_user_example =
    batch_eu_check-verify_end_user memory memory-RedisLaws with_users (text "o1:u1" ∷ [])
      (text "o1") (text "u1") server refl user_plain users_plain pairs_canonical pair_asked

-- A batch with a pair that Postgres cannot read.
abbrev mixed : List Text
mixed = text "o1:no uuid" ∷ text "o1:u1" ∷ []

mixed_asked : is_any (text "o1:no uuid") mixed ≡ true
unfolding is_any text text_eq
mixed_asked = refl

mixed_cold : memory-RedisLaws.held server (pair_key (text "o1:no uuid")) ≡ none
unfolding lookup text_eq text split_pair last_colon
mixed_cold = refl

mixed_malformed : tables.read_uuid (split_pair (text "o1:no uuid")).1 ≡ none
unfolding split_pair last_colon text text_eq
mixed_malformed = refl

batch_eu_check_malformed_example :
    (is_any (text "o1:u1") (batch_eu_check memory (serving tables) mixed server).0
      ≡ is_any (text "o1:u1") mixed
        && is_held (memory-RedisLaws.held server (pair_key (text "o1:u1"))))
    × ((o u : Text)
        → tables.read_uuid u ≡ some u
        → tables.read_uuid o ≡ some o
        → has_end_user o u tables.end_users ≡ true
        → (verify_end_user memory (serving tables) o u server).0 ≡ true)
batch_eu_check_malformed_example =
    batch_eu_check_malformed memory memory-RedisLaws tables mixed (text "o1:no uuid") (text "o1:u1")
      server refl mixed_asked mixed_cold mixed_malformed
