-- ===== src/Batch/Process/Online.antt =====
-- Batches while Redis answers and has its filter module, one after the other.
use quantumbilling.Common.{
  ℕ, suc, ◌≡◌, ◌≢◌, ◌∙◌, refl, sym, ap, List, [], ◌∷◌, ◌++◌, append_assoc, append-nil, Text, Bool,
  true, false, arith, none, All, All-append, inl, inr, is_any, is_empty, not, ◌&&◌, if◌then◌else◌,
}
use quantumbilling.Models.{UsageEvent}
use quantumbilling.Platform.Redis.{Redis, RedisLaws}
use quantumbilling.Platform.Redis.Filters.{FilterLaws}
use quantumbilling.Ingest.{idem_key}
use quantumbilling.Batch.Process.{
  accept, reject_duplicate, reject_unknown_org, reject_end_user, Loop, bf_key, reserve, dedup,
  process_event, process_from, process_batch_events, start, pair_of, BatchResult,
}
use quantumbilling.Batch.Process.Claims.{Kept, dedup-Claims}
use quantumbilling.Batch.Process.Duplicates.{dedup_seen}
use quantumbilling.Batch.Process.Offline.{Apart, IsDistinct, IsDistinct-concat}
use quantumbilling.Batch.Process.Growth.{serving, Grown, Grown-reserve, Grown-dedup, dedup-Added}

module _ (redis : Redis) (laws : RedisLaws redis) (filters : FilterLaws redis laws)
    (shards : ℕ) where
  open laws use {held, live}
  open filters use {filter}

  -- The filter knows the event, and its key is claimed.
  abbrev Seen : redis.Store → UsageEvent → Type 0
  Seen s a = (filter.has s (bf_key shards a) a.event_id ≡ true) × (held s (idem_key a) ≢ none)

  bf_key-eq :
      (a e : UsageEvent)
      → a.org_id ≡ e.org_id
      → a.event_id ≡ e.event_id
      → bf_key shards a ≡ bf_key shards e
  unfolding bf_key
  bf_key-eq a e org id = rw (org, id) refl

  -- An event that equals a seen one in its organization and identifier is a duplicate.
  dedup_again :
      (a e : UsageEvent) (l : Loop redis)
      → serving redis laws filters shards l.store ≡ true
      → Seen l.store a
      → (a.org_id ≡ e.org_id) × (a.event_id ≡ e.event_id)
      → (dedup redis shards e l).result ≡ reject_duplicate l.result
  dedup_again a e l up seen same =
      let in_filter : filter.has l.store (bf_key shards e) e.event_id ≡ true =
        rw (sym (bf_key-eq a e same.0 same.1), sym same.1) seen.0 in
      let claimed : held l.store (idem_key e) ≢ none = rw (sym same.0, sym same.1) seen.1 in
      let reserved = Grown-reserve redis laws filters shards e l in
      let known =
        filters.bf_exists_has (bf_key shards e) e.event_id (reserve redis shards e l).store
          (reserved.serves up) (reserved.grown (bf_key shards e) e.event_id in_filter) in
      ground
        (arith, claimed, dedup_seen redis laws shards e l (filters.serving-live l.store up) known)

  -- The server serves, and the events accepted by the batches before and by this one are seen and
  -- pairwise apart.
  record IsOnline (past : List UsageEvent) (l : Loop redis) : Type 0 where
    up : serving redis laws filters shards l.store ≡ true
    seen : All (Seen l.store) (past ++ l.result.accepted)
    distinct : IsDistinct (past ++ l.result.accepted)

  All-later :
      {s t : redis.Store} (es : List UsageEvent)
      → Grown redis laws filters shards s t
      → Kept redis laws shards s t
      → All (Seen s) es
      → All (Seen t) es
  All-later [] g k h = tt
  All-later (a ∷ es) g k h = (
    (g.grown (bf_key shards a) a.event_id h.0.0, k.kept (idem_key a) h.0.1),
    All-later es g k h.1,
  )

  -- An accepted event is apart from all seen ones.
  Apart-accepted :
      (e : UsageEvent) (l : Loop redis) (es : List UsageEvent)
      → serving redis laws filters shards l.store ≡ true
      → (dedup redis shards e l).result ≡ accept e l.result
      → All (Seen l.store) es
      → All (λ a. Apart a e) es
  unfolding accept reject_duplicate
  Apart-accepted e l [] up q h = tt
  Apart-accepted e l (a ∷ es) up q h = (
    λ same.
        omega
          (arith, ap (λ (r : BatchResult). r.failed_count) (sym q ∙ dedup_again a e l up h.0 same)),
    Apart-accepted e l es up q h.1,
  )

  dedup-IsOnline :
      (past : List UsageEvent) (e : UsageEvent) (l : Loop redis)
      → IsOnline past l
      → IsOnline past (dedup redis shards e l)
  unfolding accept reject_duplicate
  dedup-IsOnline past e l o =
      let claims = dedup-Claims redis laws shards e l (filters.serving-live l.store o.up) in
      let grows = Grown-dedup redis laws filters shards e l in
      let before = All-later (past ++ l.result.accepted) grows claims.keeps o.seen in
      elim (dedup-Added redis laws filters shards e l o.up) [
        | inl (q, added) ↦ record {
          up = grows.serves o.up;
          seen =
              rw (q, ← append_assoc past l.result.accepted (e ∷ []))
                (All-append _ (past ++ l.result.accepted) (e ∷ []) before
                  ((added, claims.claimed), tt));
          distinct =
              rw (q, ← append_assoc past l.result.accepted (e ∷ []))
                (IsDistinct-concat (past ++ l.result.accepted) e o.distinct
                  (Apart-accepted e l (past ++ l.result.accepted) o.up q o.seen));
        }
        | inr q ↦ record { up = grows.serves o.up; seen = rw q before; distinct = rw q o.distinct }
      ]

  module _ (valid_orgs valid_eus : List Text) where
    process-IsOnline :
        (past : List UsageEvent) (i : ℕ) (e : UsageEvent) (l : Loop redis)
        → IsOnline past l
        → IsOnline past (process_event redis shards valid_orgs valid_eus i e l)
    unfolding process_event
    process-IsOnline past i e l o =
        go (not (is_any e.org_id valid_orgs))
          (not (is_empty e.end_user_id) && not (is_any (pair_of e) valid_eus))
      where
        go :
            (b c : Bool)
            → IsOnline past (
                if b
                then record l { result = reject_unknown_org i e l.result }
                else if c
                then record l { result = reject_end_user i e l.result }
                else dedup redis shards e l)
        go true c = record { up = o.up; seen = o.seen; distinct = o.distinct }
        go false true = record { up = o.up; seen = o.seen; distinct = o.distinct }
        go false false = dedup-IsOnline past e l o

    process_from-IsOnline :
        (past : List UsageEvent) (i : ℕ) (es : List UsageEvent) (l : Loop redis)
        → IsOnline past l
        → IsOnline past (process_from redis shards valid_orgs valid_eus i es l)
    unfolding process_from
    process_from-IsOnline past i [] l o = o
    process_from-IsOnline past i (e ∷ es) l o =
        process_from-IsOnline past (suc i) es _ (process-IsOnline past i e l o)

  -- One batch as it reaches the loop: its events, and what the existence checks have found.
  pub record Batch : Type 0 where
    pub valid_orgs : List Text
    pub valid_eus : List Text
    pub events : List UsageEvent

  -- The batches that are processed one after the other: all the events that are accepted.
  unfoldable pub process_all : List Batch → List UsageEvent → redis.Store → List UsageEvent
  process_all [] past s = past
  process_all (b ∷ bs) past s =
      let (r, t) = process_batch_events redis shards b.valid_orgs b.valid_eus b.events s in
      process_all bs (past ++ r.accepted) t

  process_all_online :
      (bs : List Batch) (past : List UsageEvent) (s : redis.Store)
      → serving redis laws filters shards s ≡ true
      → All (Seen s) past
      → IsDistinct past
      → IsDistinct (process_all bs past s)
  unfolding process_all process_batch_events
  process_all_online [] past s up seen distinct = distinct
  process_all_online (b ∷ bs) past s up seen distinct =
      let o =
        process_from-IsOnline b.valid_orgs b.valid_eus past 0 b.events (start redis shards s)
          (record {
            up = up;
            seen = rw (append-nil past) seen;
            distinct = rw (append-nil past) distinct;
          }) in
      process_all_online bs _ _ o.up o.seen o.distinct

  -- While Redis answers and has its filter module, over any sequence of batches, no two of all the
  -- accepted events have the same organization and identifier, in one batch or in different ones: a
  -- batch that is sent again has nothing accepted that was accepted the first time.
  pub process_all-IsDistinct :
      (bs : List Batch) (s : redis.Store)
      → serving redis laws filters shards s ≡ true
      → IsDistinct (process_all bs [] s)
  process_all-IsDistinct bs s up = process_all_online bs [] s up tt tt
