-- ===== src/Batch/Process.antt =====
-- `processBatchEvents` of engine/internal/handler/batch_handler.go: the validity filters, the Bloom
-- pre-filter and the SETNX checks, event by event. `eventIDs[i]` is `events[i].EventID`, and the
-- number of shards is positive (with none the code divides by zero).
pub mod Counts
pub mod Duplicates
pub mod Offline
pub mod Claims
pub mod Growth
pub mod Online
use quantumbilling.Common.{
  ℕ, suc, ◌+◌, ◌%◌, List, [], ◌∷◌, ◌++◌, Text, text, is_any, is_empty, Bool, true, false, not, ◌&&◌,
  ◌==◌, if◌then◌else◌,
}
use quantumbilling.Common.Digits.{decimal}
use quantumbilling.Models.{UsageEvent, default_idempotency_ttl}
use quantumbilling.Platform.Redis.{Redis, Reply, reply, unavailable}
use quantumbilling.Ingest.{idem_key}
use quantumbilling.Batch.Hash.{hash_event_id}
use quantumbilling.Batch.Bloom.{InProcessBloom, new_in_process_bloom, exists_and_add, add}

pub record BatchError : Type 0 where
  pub index : ℕ
  pub code : Text
  pub event_id : Text

pub record BatchResult : Type 0 where
  pub accepted : List UsageEvent
  pub failed_count : ℕ
  pub duplicate_count : ℕ
  pub unknown_org_count : ℕ
  pub user_not_in_org_count : ℕ
  pub errors : List BatchError

abbrev pub empty_result : BatchResult
empty_result = record {
  accepted = [];
  failed_count = 0;
  duplicate_count = 0;
  unknown_org_count = 0;
  user_not_in_org_count = 0;
  errors = [];
}

unfoldable pub reject_unknown_org : ℕ → UsageEvent → BatchResult → BatchResult
reject_unknown_org i e r = record r {
  failed_count = r.failed_count + 1;
  unknown_org_count = r.unknown_org_count + 1;
  errors = r.errors ++ record { index = i; code = text "UNKNOWN_ORG"; event_id = e.event_id } ∷ [];
}

unfoldable pub reject_end_user : ℕ → UsageEvent → BatchResult → BatchResult
reject_end_user i e r = record r {
  failed_count = r.failed_count + 1;
  user_not_in_org_count = r.user_not_in_org_count + 1;
  errors =
      r.errors
      ++ record { index = i; code = text "END_USER_NOT_IN_ORG"; event_id = e.event_id } ∷ [];
}

-- A duplicate is counted, with no entry among the errors.
unfoldable pub reject_duplicate : BatchResult → BatchResult
reject_duplicate r = record r {
  failed_count = r.failed_count + 1;
  duplicate_count = r.duplicate_count + 1;
}

unfoldable pub accept : UsageEvent → BatchResult → BatchResult
accept e r = record r { accepted = r.accepted ++ e ∷ [] }

-- `e.OrgID + ":" + e.EndUserID`
abbrev pub pair_of : UsageEvent → Text
pair_of e = e.org_id ++ (b':' ∷ e.end_user_id)

-- `bf:%s:%d`
unfoldable pub bf_key : ℕ → UsageEvent → Text
unfolding decimal hash_event_id
bf_key shards e = text "bf:" ++ (e.org_id ++ (b':' ∷ decimal (hash_event_id e.event_id % shards)))

-- What the loop carries.
pub record Loop (redis : Redis) : Type 0 where
  pub store : redis.Store
  pub reserved : List Text
  pub bloom : InProcessBloom
  pub result : BatchResult

-- `setErr == nil && set`
abbrev pub is_set : Reply Bool → Bool
is_set unavailable = false
is_set (reply b) = b

module _ (redis : Redis) (shards : ℕ) where
  -- `SetNX(idem, "1", 24h)`: whether the event is new.
  unfoldable pub set_idem : UsageEvent → redis.Store → Bool × redis.Store
  set_idem e s =
      let (r, s') = redis.set_nx (idem_key e) (text "1") default_idempotency_ttl s in (is_set r, s')

  -- The first use of a shard reserves its filter.
  unfoldable pub reserve : UsageEvent → Loop redis → Loop redis
  reserve e l = if is_any (bf_key shards e) l.reserved then l else record l {
    store = redis.bf_reserve (bf_key shards e) l.store;
    reserved = bf_key shards e ∷ l.reserved;
  }

  -- Redis has no answer: the in-process filter decides, and SETNX where it has seen the event.
  unfoldable pub check_offline : UsageEvent → Loop redis → Bool × Loop redis
  unfolding set_idem
  check_offline e l =
      let (maybe_seen, bloom) = exists_and_add e.org_id e.event_id l.bloom in
      if maybe_seen
      then ((set_idem e l.store).0, record l { store = (set_idem e l.store).1; bloom = bloom })
      else (true, record l { bloom = bloom })

  unfoldable pub check_seen : UsageEvent → Loop redis → Bool × Loop redis
  unfolding set_idem
  check_seen e l = let (set, s) = set_idem e l.store in (set, record l { store = s })

  -- Whether the event goes on, and the value that `exists` is left with: 0 on an error.
  unfoldable pub check_bloom : Reply ℕ → UsageEvent → Loop redis → (Bool × ℕ) × Loop redis
  unfolding check_offline check_seen
  check_bloom unavailable e l = let (go_on, l') = check_offline e l in ((go_on, 0), l')
  check_bloom (reply n) e l =
      if n == 1 then (((check_seen e l).0, n), (check_seen e l).1) else ((true, n), l)

  -- BF.ADD, the in-process filter, the SETNX of an event that was not seen, and the result.
  unfoldable pub record_accepted : ℕ → UsageEvent → Loop redis → Loop redis
  unfolding accept set_idem
  record_accepted exists e l =
      let s = redis.bf_add (bf_key shards e) e.event_id l.store in
      record l {
        bloom = add e.org_id e.event_id l.bloom;
        store = if exists == 0 then (set_idem e s).1 else s;
        result = accept e l.result;
      }

  -- The part of the loop's body behind the validity filters.
  unfoldable pub dedup : UsageEvent → Loop redis → Loop redis
  dedup e l =
      let l1 = reserve e l in
      let (r, s) = redis.bf_exists (bf_key shards e) e.event_id l1.store in
      let (verdict, l2) = check_bloom r e (record l1 { store = s }) in
      if verdict.0
      then record_accepted verdict.1 e l2
      else record l2 { result = reject_duplicate l2.result }

  -- What the loop starts with.
  abbrev pub start : redis.Store → Loop redis
  start s = record {
    store = s;
    reserved = [];
    bloom = new_in_process_bloom shards;
    result = empty_result;
  }

  module _ (valid_orgs valid_eus : List Text) where
    -- The body of the loop at index `i`.
    unfoldable pub process_event : ℕ → UsageEvent → Loop redis → Loop redis
    unfolding reject_unknown_org reject_end_user
    process_event i e l =
        if not (is_any e.org_id valid_orgs)
        then record l { result = reject_unknown_org i e l.result }
        else if not (is_empty e.end_user_id) && not (is_any (pair_of e) valid_eus)
        then record l { result = reject_end_user i e l.result }
        else dedup e l

    -- The loop from index `i`.
    unfoldable pub process_from : ℕ → List UsageEvent → Loop redis → Loop redis
    process_from i [] l = l
    process_from i (e ∷ es) l = process_from (suc i) es (process_event i e l)

    unfoldable pub process_batch_events : List UsageEvent → redis.Store → BatchResult × redis.Store
    unfolding process_from
    process_batch_events es s = let l = process_from 0 es (start s) in (l.result, l.store)
