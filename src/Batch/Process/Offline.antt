-- ===== src/Batch/Process/Offline.antt =====
-- A batch while Redis does not answer.
use quantumbilling.Common.{
  ℕ, suc, ◌≡◌, ◌∙◌, List, [], ◌∷◌, ◌++◌, Text, text, Bool, true, false, arith, All, All-append,
  Bool-cases, inl, inr, is_any, is_empty, not, ◌&&◌, if◌then◌else◌,
}
use quantumbilling.Models.{UsageEvent, default_idempotency_ttl}
use quantumbilling.Platform.Redis.{Redis, RedisLaws, Reply, unavailable}
use quantumbilling.Ingest.{idem_key}
use quantumbilling.Batch.Bloom.{InProcessBloom, exists_and_add, add}
use quantumbilling.Batch.Bloom.Laws.{
  Seen, Extends, Extends-trans, Seen-Extends, add-Extends, add-Seen, exists_and_add-Extends,
  exists_and_add-present,
}
use quantumbilling.Batch.Process.{
  accept, reject_duplicate, reject_unknown_org, reject_end_user, Loop, bf_key, reserve, check_bloom,
  record_accepted, dedup, process_event, process_from, process_batch_events, start, pair_of,
}

-- Two events of different organizations or with different identifiers.
abbrev pub Apart : UsageEvent → UsageEvent → Type 0
Apart a e = ¬ ((a.org_id ≡ e.org_id) × (a.event_id ≡ e.event_id))

abbrev pub IsDistinct : List UsageEvent → Type 0
IsDistinct [] = Unit
IsDistinct (e ∷ es) = All (Apart e) es × IsDistinct es

pub IsDistinct-concat :
    (es : List UsageEvent) (e : UsageEvent)
    → IsDistinct es
    → All (λ a. Apart a e) es
    → IsDistinct (es ++ e ∷ [])
IsDistinct-concat [] e d apart = (tt, tt)
IsDistinct-concat (a ∷ es) e d apart =
    (All-append (Apart a) es (e ∷ []) d.0 (apart.0, tt), IsDistinct-concat es e d.1 apart.1)

-- The filter has seen every event of a list.
abbrev AllSeen : InProcessBloom → List UsageEvent → Type 0
AllSeen b = All (λ a. Seen a.org_id a.event_id b)

AllSeen-Extends :
    {b c : InProcessBloom} (es : List UsageEvent) → Extends b c → AllSeen b es → AllSeen c es
AllSeen-Extends [] x seen = tt
AllSeen-Extends (a ∷ es) x seen =
    (Seen-Extends a.org_id a.event_id x seen.0, AllSeen-Extends es x seen.1)

-- An event that the filter does not know is apart from every event that it has seen.
Apart-unseen :
    (b : InProcessBloom) (e : UsageEvent) (es : List UsageEvent)
    → (exists_and_add e.org_id e.event_id b).0 ≡ false
    → AllSeen b es
    → All (λ a. Apart a e) es
Apart-unseen b e [] new seen = tt
Apart-unseen b e (a ∷ es) new seen = (
  λ same. cc (exists_and_add-present a.org_id a.event_id b seen.0),
  Apart-unseen b e es new seen.1,
)

module _ (redis : Redis) (laws : RedisLaws redis) (shards : ℕ) where
  open laws use {live}

  module _ (e : UsageEvent) (l : Loop redis) where
    reserve-result : (reserve redis shards e l).result ≡ l.result
    unfolding reserve
    reserve-result = ground arith

    reserve-bloom : (reserve redis shards e l).bloom ≡ l.bloom
    unfolding reserve
    reserve-bloom = ground arith

    live-reserve : live (reserve redis shards e l).store ≡ live l.store
    unfolding reserve
    live-reserve = ground (arith, laws.live-bf_reserve (bf_key shards e) l.store)

  module _ (e : UsageEvent) (l : Loop redis) (down : live l.store ≡ false) where
    abbrev probe : Bool × InProcessBloom
    probe = exists_and_add e.org_id e.event_id l.bloom

    abbrev asked : Reply ℕ × redis.Store
    asked = redis.bf_exists (bf_key shards e) e.event_id (reserve redis shards e l).store

    asked_down : asked.0 ≡ unavailable
    asked_down = laws.bf_exists_down _ _ _ (live-reserve e l ∙ down)

    live-asked : live asked.1 ≡ false
    live-asked = laws.live-bf_exists _ _ _ ∙ live-reserve e l ∙ down

    abbrev l2 : Loop redis
    l2 = record (reserve redis shards e l) { store = asked.1 }

    -- A repeated event is refused, since SETNX has no answer either.
    dedup_seen :
        probe.0 ≡ true
        → ((dedup redis shards e l).bloom ≡ probe.1)
          × ((dedup redis shards e l).result ≡ reject_duplicate l.result)
          × (live (dedup redis shards e l).store ≡ false)
    unfolding dedup check_bloom
    dedup_seen hit =
        let k = idem_key e in
        ground (
          arith,
          asked_down,
          live-asked,
          reserve-result e l,
          reserve-bloom e l,
          laws.set_nx_down k (text "1") default_idempotency_ttl asked.1 live-asked,
          laws.live-set_nx k (text "1") default_idempotency_ttl asked.1,
        )

    dedup_new :
        probe.0 ≡ false
        → ((dedup redis shards e l).bloom ≡ add e.org_id e.event_id probe.1)
          × ((dedup redis shards e l).result ≡ accept e l.result)
          × (live (dedup redis shards e l).store ≡ false)
    unfolding dedup check_bloom record_accepted
    dedup_new miss =
        let k = idem_key e in
        let s = redis.bf_add (bf_key shards e) e.event_id asked.1 in
        ground (
          arith,
          asked_down,
          live-asked,
          reserve-result e l,
          reserve-bloom e l,
          laws.live-bf_add (bf_key shards e) e.event_id asked.1,
          laws.live-set_nx k (text "1") default_idempotency_ttl s,
        )

  -- Nothing answers, and the accepted events are seen and pairwise apart.
  record IsOffline (l : Loop redis) : Type 0 where
    down : live l.store ≡ false
    seen : AllSeen l.bloom l.result.accepted
    distinct : IsDistinct l.result.accepted

  dedup-IsOffline :
      (e : UsageEvent) (l : Loop redis) → IsOffline l → IsOffline (dedup redis shards e l)
  unfolding reject_duplicate accept
  dedup-IsOffline e l o = elim (Bool-cases (probe e l o.down).0) [
    | inl hit ↦
        let (bloom, result, down) = dedup_seen e l o.down hit in
        record {
          down = down;
          seen =
              rw (bloom, result)
                (AllSeen-Extends l.result.accepted
                  (exists_and_add-Extends e.org_id e.event_id l.bloom) o.seen);
          distinct = rw result o.distinct;
        }
    | inr miss ↦
        let (bloom, result, down) = dedup_new e l o.down miss in
        let grown =
          Extends-trans (exists_and_add-Extends e.org_id e.event_id l.bloom)
            (add-Extends e.org_id e.event_id _) in
        record {
          down = down;
          seen =
              rw (bloom, result)
                (All-append _ l.result.accepted (e ∷ [])
                  (AllSeen-Extends l.result.accepted grown o.seen)
                  (add-Seen e.org_id e.event_id _, tt));
          distinct = rw result (
              IsDistinct-concat l.result.accepted e o.distinct
                (Apart-unseen l.bloom e l.result.accepted miss o.seen));
        }
  ]

  module _ (valid_orgs valid_eus : List Text) where
    -- The validity filters refuse without touching anything else.
    process-IsOffline :
        (i : ℕ) (e : UsageEvent) (l : Loop redis)
        → IsOffline l
        → IsOffline (process_event redis shards valid_orgs valid_eus i e l)
    unfolding process_event
    process-IsOffline i e l o =
        go (not (is_any e.org_id valid_orgs))
          (not (is_empty e.end_user_id) && not (is_any (pair_of e) valid_eus))
      where
        go :
            (b c : Bool)
            → IsOffline (
                if b
                then record l { result = reject_unknown_org i e l.result }
                else if c
                then record l { result = reject_end_user i e l.result }
                else dedup redis shards e l)
        go true c = record { down = o.down; seen = o.seen; distinct = o.distinct }
        go false true = record { down = o.down; seen = o.seen; distinct = o.distinct }
        go false false = dedup-IsOffline e l o

    process_from-IsOffline :
        (i : ℕ) (es : List UsageEvent) (l : Loop redis)
        → IsOffline l
        → IsOffline (process_from redis shards valid_orgs valid_eus i es l)
    unfolding process_from
    process_from-IsOffline i [] l o = o
    process_from-IsOffline i (e ∷ es) l o =
        process_from-IsOffline (suc i) es _ (process-IsOffline i e l o)

    -- While Redis does not answer, no two accepted events of a batch have the same organization and
    -- identifier.
    pub process_batch_events_offline :
        (es : List UsageEvent) (s : redis.Store)
        → live s ≡ false
        → IsDistinct (process_batch_events redis shards valid_orgs valid_eus es s).0.accepted
    unfolding process_batch_events
    process_batch_events_offline es s down =
        (process_from-IsOffline 0 es (start redis shards s)
          (record { down = down; seen = tt; distinct = tt })).distinct
