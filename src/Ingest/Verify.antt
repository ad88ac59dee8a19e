-- ===== src/Ingest/Verify.antt =====
-- `verifyOrg` and `verifyEndUser` of engine/internal/handler/ingest_handler.go: the existence caches
-- in Redis, with Postgres behind them.
use quantumbilling.Common.{
  ◌↔◌, ℕ, ◌++◌, ◌≡◌, ◌⊎◌, ◌≢◌, Text, text, Bool, true, false, Option, none, some, ltb, arith,
}
use quantumbilling.Platform.Redis.{Redis, RedisLaws, Reply, reply, unavailable}
use quantumbilling.Platform.Postgres.{Postgres, org_exists, end_user_in_org}

abbrev pub org_key : Text → Text
org_key org_id = text "org:" ++ org_id

-- `org:%s:enduser:%s`
abbrev pub end_user_key : Text → Text → Text
end_user_key org_id end_user_id = text "org:" ++ (org_id ++ (text ":enduser:" ++ end_user_id))

-- one hour
abbrev pub backfill_ttl : ℕ
backfill_ttl = 3600

-- `err == nil && exists > 0`
abbrev pub is_hit : Reply ℕ → Bool
is_hit unavailable = false
is_hit (reply n) = ltb 0 n

module _ (redis : Redis) where
  -- What Postgres decides: an error and a miss fail, a hit is written back to the cache. A handle
  -- that is nil answers like one whose query fails.
  unfoldable pub fall_back : Option Bool → Text → redis.Store → Bool × redis.Store
  fall_back none key s = (false, s)
  fall_back (some false) key s = (false, s)
  fall_back (some true) key s = (true, redis.set key (text "1") backfill_ttl s)

  -- The cached test, then the fallback.
  unfoldable pub verify_key : Option Bool → Text → redis.Store → Bool × redis.Store
  unfolding fall_back
  verify_key answer key s =
      let (r, s') = redis.exists key s in
      elim (is_hit r) [ true ↦ (true, s') | false ↦ fall_back answer key s' ]

  unfoldable pub verify_org : Postgres → Text → redis.Store → Bool × redis.Store
  unfolding verify_key
  verify_org pg org_id s = verify_key (org_exists pg org_id) (org_key org_id) s

  unfoldable pub verify_end_user : Postgres → Text → Text → redis.Store → Bool × redis.Store
  unfolding verify_key
  verify_end_user pg org_id end_user_id s =
      verify_key (end_user_in_org pg org_id end_user_id) (end_user_key org_id end_user_id) s

module _ (redis : Redis) (laws : RedisLaws redis) where
  open laws use {
    held, live, held-exists, live-exists, exists-reply, held-set_ne, live-set, exists_down,
  }

  module _ (answer : Option Bool) (key : Text) (s : redis.Store) where
    -- No other key changes, and the server stays as it was.
    pub held-verify_key_ne :
        (j : Text) → key ≢ j → held (verify_key redis answer key s).1 j ≡ held s j
    unfolding verify_key
    held-verify_key_ne j ne = ground (
      arith,
      held-exists key j s,
      held-set_ne key j (text "1") backfill_ttl (redis.exists key s).1 ne,
    )

    pub live-verify_key : live (verify_key redis answer key s).1 ≡ live s
    unfolding verify_key
    live-verify_key =
        ground
          (arith, live-exists key s, live-set key (text "1") backfill_ttl (redis.exists key s).1)

    -- With a server, the test passes exactly for a cached key and for one that Postgres has.
    pub verify_key_iff :
        live s ≡ true
        → ((verify_key redis answer key s).0 ≡ true) ↔ ((held s key ≢ none) ⊎ (answer ≡ some true))
    unfolding verify_key
    verify_key_iff up = let (n, e, iff) = exists-reply key s up in ground arith

    pub verify_key_down :
        live s ≡ false → ((verify_key redis answer key s).0 ≡ true) ↔ (answer ≡ some true)
    unfolding verify_key
    verify_key_down down = ground (arith, exists_down key s down)
