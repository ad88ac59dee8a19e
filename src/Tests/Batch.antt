-- ===== src/Tests/Batch.antt =====
-- Runs of the batch handler, and its theorems at a concrete batch.
use quantumbilling.Common.{
  ℕ, ◌*◌, ◌/◌, ◌%◌, ◌<◌, ◌≡◌, ◌≢◌, refl, List, [], ◌∷◌, text, text_eq, is_any, true, false, arith,
  some, none, All,
}
use mathlib.Core.List.{Sublistᴰ}
use quantumbilling.Models
use quantumbilling.Models.{UsageEvent, KeyContext, Fresh}
use quantumbilling.Models.Codec.{parse_ingest_batch}
use quantumbilling.Platform.Redis.{reply}
use quantumbilling.Platform.Redis.Memory.{
  memory, memory-RedisLaws, Memory, lookup, claim, count, read, has_item, may_have, note,
}
use quantumbilling.Platform.Postgres.{batch_org_postgres, batch_eu_pg}
use quantumbilling.Http.{batch_accepted}
use quantumbilling.Ingest.{idem_key}
use quantumbilling.Ingest.Rollback.{is_error}
use quantumbilling.Batch
use quantumbilling.Batch.{handle_batch_event}
use quantumbilling.Batch.Hash.{fnv32a, hash_event_id, uint32_mod}
use quantumbilling.Batch.Bloom
use quantumbilling.Batch.Bloom.{new_in_process_bloom, exists_and_add, add}
use quantumbilling.Batch.Bloom.Uses
use quantumbilling.Batch.Bloom.Uses.{use_all, exists_after_add, use_all_low_blocks}
use quantumbilling.Batch.Process
use quantumbilling.Batch.Process.{
  process_batch_events, Loop, dedup, accept, reject_duplicate, start, pair_of,
}
use quantumbilling.Batch.Process.Counts.{Known, process_batch_events-accepted}
use quantumbilling.Batch.Process.Offline.{IsDistinct, process_batch_events_offline}
use quantumbilling.Platform.Redis.Filters.{memory-FilterLaws}
use quantumbilling.Batch.Process.Online.{Batch, process_all, process_all-IsDistinct}
use quantumbilling.Batch.Process.Claims.{process_batch_events-claimed}
use quantumbilling.Batch.Process.Duplicates.{asked, dedup_online}
use quantumbilling.Batch.Lookup
use quantumbilling.Batch.Lookup.{collect_unique_org_ids, batch_org_check, batch_eu_check, pair_key}
use quantumbilling.Batch.Laws.{BatchServed, handle-BatchServed}
use quantumbilling.Samples.{
  event, key_context, fresh, json, request, server, empty_server, world, handler,
}

abbrev fresh_at : ℕ → Fresh
fresh_at i = fresh

-- Opens what a batch goes through.
run : Unit {0}
unfolding handle_batch_event Batch.parse_batch Batch.authorize_batch Batch.run_batch
    Batch.publish_batch Batch.enrich_all process_batch_events Process.process_from
    Process.process_event dedup Process.check_bloom Process.reserve Process.record_accepted
    Process.check_seen reject_duplicate batch_eu_pg Lookup.collect_unique_eu_pairs Lookup.pipeline
    Lookup.backfill Lookup.collect_orgs batch_org_postgres accept collect_unique_org_ids
    batch_org_check batch_eu_check parse_ingest_batch lookup claim count read may_have note has_item
    Process.set_idem Process.bf_key hash_event_id text text_eq is_any Models.enrich
run = tt

-- The reply to a batch of one event, sent twice.
accepts_one :
    (handle_batch_event memory json handler fresh_at
      (request (text "[e1]"))
      (some key_context)
      (world server)).0
    ≡ batch_accepted 1 1
unfolding run
accepts_one = refl

handle-BatchServed_example :
    BatchServed memory json handler fresh_at
      (request (text "[e1]"))
      (some key_context)
      (world server)
      1
      1
handle-BatchServed_example =
    handle-BatchServed memory json handler fresh_at (request (text "[e1]")) (some key_context)
      (world server) 1 1 accepts_one

refuses_all :
    is_error
      (handle_batch_event memory json handler fresh_at
        (request (text "[e1]"))
        (some key_context)
        (world empty_server)).0
    ≡ true
unfolding run
refuses_all = refl

abbrev other : UsageEvent
other = record event { org_id = text "o1"; event_id = text "e2"; end_user_id = text "u1" }

abbrev batch : List UsageEvent
batch = record event { org_id = text "o1" } ∷ other ∷ record event { org_id = text "o1" } ∷ []

-- No server.
abbrev down_server : Memory
down_server = record { strings = []; filters = []; up = false; stack = false }

process_batch_events_offline_example :
    IsDistinct (process_batch_events memory 16 (text "o1" ∷ []) [] batch down_server).0.accepted
process_batch_events_offline_example =
    process_batch_events_offline memory memory-RedisLaws 16 (text "o1" ∷ []) [] batch down_server
      refl

process_batch_events-claimed_example :
    All
      (λ a.
        memory-RedisLaws.held
          (process_batch_events memory 16 (text "o1" ∷ []) [] batch server).1
          (idem_key a)
        ≢ none)
      (process_batch_events memory 16 (text "o1" ∷ []) [] batch server).0.accepted
process_batch_events-claimed_example =
    process_batch_events-claimed memory memory-RedisLaws 16 (text "o1" ∷ []) [] batch server refl

-- The key of the event is claimed already, and no filter has seen it.
abbrev claimed_server : Memory
claimed_server = record server { strings = (idem_key other, text "1") ∷ [] }

unseen : (asked memory memory-RedisLaws 16 other (start memory 16 claimed_server)).0 ≡ reply 0
unfolding may_have has_item Process.reserve is_any
unseen = refl

dedup_online_example :
    (dedup memory 16 other (start memory 16 claimed_server)).result
    ≡ accept other (start memory 16 claimed_server).result
dedup_online_example =
    dedup_online memory memory-RedisLaws 16 0 other (start memory 16 claimed_server) refl unseen

-- The filter has seen it, too.
abbrev seen_server : Memory
seen_server = record claimed_server { filters = (Process.bf_key 16 other, text "e2") ∷ [] }

seen : (asked memory memory-RedisLaws 16 other (start memory 16 seen_server)).0 ≡ reply 1
unfolding may_have has_item Process.reserve text text_eq Process.bf_key hash_event_id is_any
seen = refl

plain_user : All (λ c. c ≢ b':') (text "u1")
unfolding text
plain_user = ground arith

exists_after_add_example :
    (exists_and_add (text "o1") (text "e1") (
      use_all
        (add (text "o1") (text "e1") (new_in_process_bloom 16))
        (Uses.probe (text "o2") (text "e2") ∷ []))).0
    ≡ true
exists_after_add_example =
    exists_after_add (new_in_process_bloom 16) (text "o1") (text "e1")
      (Uses.probe (text "o2") (text "e2") ∷ [])

process_batch_events-accepted_example :
    Sublistᴰ (process_batch_events memory 16 (text "o1" ∷ []) [] batch server).0.accepted batch
    × All
        (Known memory 16 (text "o1" ∷ []) [])
        (process_batch_events memory 16 (text "o1" ∷ []) [] batch server).0.accepted
process_batch_events-accepted_example =
    process_batch_events-accepted memory 16 (text "o1" ∷ []) [] batch server

-- The last bit that one event sets.
abbrev place : ℕ
place = Bloom.position 16 (Bloom.hash (text "o1") (text "e1")) 3

bit_set :
    (use_all (new_in_process_bloom 16) (Uses.note (text "o1") (text "e1") ∷ [])).bits
      (place / 64)
      (place % 64)
    ≡ true
unfolding use_all Uses.use_one add Bloom.add_loop Bloom.set_bit Bloom.position Bloom.hash text
    fnv32a new_in_process_bloom
bit_set = refl

some_shard : 0 < 16
some_shard = omega arith

shards_fit : 16 * Bloom.bloom_size < uint32_mod
shards_fit = omega arith

use_all_low_blocks_example : place / 64 < 16 * Bloom.bloom_size / 64
use_all_low_blocks_example =
    use_all_low_blocks 16 (Uses.note (text "o1") (text "e1") ∷ []) (place / 64) (place % 64)
      some_shard shards_fit bit_set

-- The batch as it reaches the loop, twice.
abbrev sent_batch : Batch memory memory-RedisLaws memory-FilterLaws 16
sent_batch = record { valid_orgs = text "o1" ∷ []; valid_eus = text "o1:u1" ∷ []; events = batch }

process_all-IsDistinct_example : IsDistinct (
    process_all memory memory-RedisLaws memory-FilterLaws 16
      (sent_batch ∷ sent_batch ∷ [])
      []
      server)
process_all-IsDistinct_example =
    process_all-IsDistinct memory memory-RedisLaws memory-FilterLaws 16
      (sent_batch ∷ sent_batch ∷ []) server refl
