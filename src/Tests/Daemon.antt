-- ===== src/Tests/Daemon.antt =====
-- The theorems on the cache daemon at concrete tables.
use quantumbilling.Common.{◌≡◌, ◌≢◌, refl, [], ◌∷◌, text, text_eq, true, false, some, none, ◌||◌}
use quantumbilling.Platform.Redis.Memory.{memory, memory-RedisLaws, lookup}
use quantumbilling.Platform.Postgres.{Tables, absent, serving, has_org, org_exists}
use quantumbilling.Ingest.Verify.{verify_org, org_key}
use quantumbilling.Keys.Table.{KeyRow, ready}
use quantumbilling.Daemon.{warm_all}
use quantumbilling.Daemon.Laws.{has_key}
use quantumbilling.Daemon.Warm.{verify_org-warm_all, verify_org-warm_all_inactive}
use quantumbilling.Samples.{read_id, empty_server}

-- An organization that is suspended and one that is active; a key of the suspended one.
abbrev tables : Tables
tables = record {
  read_uuid = read_id;
  organizations =
      record { id = text "o1"; status = text "SUSPENDED" }
      ∷ record { id = text "o2"; status = text "ACTIVE" }
      ∷ [];
  end_users = [];
}

abbrev key_row : KeyRow
key_row = record {
  id = text "k1";
  org_id = text "o1";
  customer_id = some (text "c1");
  end_user_id = some (text "u1");
  name = text "prod";
  key_hash = [];
  key_prefix = [];
  source_mode = text "byok";
  status = text "active";
  created_at = [];
}

o2_active : has_org (text "o2") tables.organizations || has_key (text "o2") [] ≡ true
unfolding has_org text text_eq
o2_active = refl

verify_org-warm_all_example :
    (verify_org memory absent
      (text "o2")
      (warm_all memory (serving tables) (ready []) empty_server).1).0
    ≡ true
verify_org-warm_all_example =
    verify_org-warm_all memory memory-RedisLaws (text "o2") tables [] empty_server absent refl
      o2_active

o1_inactive : org_exists (serving tables) (text "o1") ≢ some true
unfolding org_exists has_org text text_eq
o1_inactive = cc

o1_key : has_key (text "o1") (key_row ∷ []) ≡ true
unfolding text text_eq
o1_key = refl

o1_cold : memory-RedisLaws.held empty_server (org_key (text "o1")) ≡ none
unfolding lookup
o1_cold = refl

verify_org-warm_all_inactive_example :
    ((verify_org memory (serving tables) (text "o1") empty_server).0 ≡ false)
    × ((verify_org memory
          (serving tables)
          (text "o1")
          (warm_all memory (serving tables) (ready (key_row ∷ [])) empty_server).1).0
        ≡ true)
verify_org-warm_all_inactive_example =
    verify_org-warm_all_inactive memory memory-RedisLaws (text "o1") tables (key_row ∷ [])
      empty_server refl o1_cold o1_inactive o1_key
