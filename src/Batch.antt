-- ===== src/Batch.antt =====
-- engine/internal/handler/batch_handler.go: POST /v1/events/batch.
pub mod Hash
pub mod Bloom
pub mod Process
pub mod Lookup
pub mod Laws
use quantumbilling.Common.{
  ℕ, zero, suc, List, [], ◌∷◌, ◌++◌, Text, text, text_eq, Bool, true, false, not, Option, none,
  some, ltb, length, map, if◌then◌else◌,
}
use quantumbilling.Common.Digits.{decimal}
use quantumbilling.Models.{UsageEvent, KeyContext, Fresh, enrich, default_max_batch_body_size}
use quantumbilling.Models.Codec.{Json, parse_ingest_batch}
use quantumbilling.Platform.Redis.{Redis}
use quantumbilling.Http.{Request, Response, error, batch_accepted, World, post}
use quantumbilling.Ingest.{IngestHandler}
use quantumbilling.Batch.Process.{BatchResult, process_batch_events}
use quantumbilling.Batch.Lookup.{
  collect_unique_org_ids, collect_unique_eu_pairs, batch_org_check, batch_eu_check,
}

-- Step 1: every event is enriched. `fresh i` is what the call for event `i` draws.
unfoldable pub enrich_all : KeyContext → (ℕ → Fresh) → ℕ → List UsageEvent → List UsageEvent
enrich_all kc fresh i [] = []
enrich_all kc fresh i (e ∷ es) = enrich kc (fresh i) e ∷ enrich_all kc fresh (suc i) es

-- `b, _ := json.Marshal(e)`: a failure leaves no bytes.
abbrev pub encode : Json → UsageEvent → Text
encode json e = elim (json.marshal_event e) [ none ↦ [] | some msg ↦ msg ]

module _ (redis : Redis) (json : Json) (h : IngestHandler) where
  -- Step 6: the accepted events are handed over in one call, and the counts are the reply.
  unfoldable pub publish_batch : KeyContext → BatchResult → World redis → Response × World redis
  publish_batch kc result w = elim result.accepted [
    | [] ↦ (error 400 (text "NO_VALID_EVENTS") (text "no valid events in batch"), w)
    | e ∷ es ↦ (
      batch_accepted (length (e ∷ es)) result.failed_count,
      if h.pub_batch
          then record w {
            published =
                w.published
                ++ record { messages = map (encode json) (e ∷ es); partition_key = kc.org_id } ∷ [];
          }
          else w,
    )
  ]

  -- Steps 2 to 5 over the enriched events.
  unfoldable pub run_batch : KeyContext → List UsageEvent → World redis → Response × World redis
  unfolding publish_batch
  run_batch kc es w =
      let (valid_orgs, s1) = batch_org_check redis h.pg (collect_unique_org_ids es) w.store in
      let (valid_eus, s2) = batch_eu_check redis h.pg (collect_unique_eu_pairs es) s1 in
      let (result, s3) = process_batch_events redis h.bloom_num_shards valid_orgs valid_eus es s2 in
      publish_batch kc result (record w { store = s3 })

  unfoldable pub authorize_batch :
      (ℕ → Fresh) → List UsageEvent → Option KeyContext → World redis → Response × World redis
  authorize_batch fresh es none w =
      (error 401 (text "UNAUTHORIZED") (text "missing authentication context"), w)
  authorize_batch fresh es (some kc) w = run_batch kc (enrich_all kc fresh 0 es) w

  unfoldable pub parse_batch :
      (ℕ → Fresh) → Request → Option KeyContext → World redis → Response × World redis
  unfolding authorize_batch
  parse_batch fresh r kc w = elim (parse_ingest_batch json r.body) [
    | none ↦ (error 400 (text "INVALID_JSON") (text "failed to parse batch body"), w)
    | some es ↦
        if ltb h.max_batch_size (length es)
        then (
          error 413 (text "BATCH_TOO_LARGE") (
              text "batch size "
              ++ (decimal (length es) ++ (text " exceeds max " ++ decimal h.max_batch_size))),
          w,
        )
        else authorize_batch fresh es kc w
  ]

  -- `HandleBatchEvent`. A parsed batch is never empty.
  unfoldable pub handle_batch_event :
      (ℕ → Fresh) → Request → Option KeyContext → World redis → Response × World redis
  unfolding parse_batch
  handle_batch_event fresh r kc w =
      if not (text_eq r.method post)
      then (error 405 (text "METHOD_NOT_ALLOWED") (text "only POST is allowed"), w)
      else if ltb default_max_batch_body_size (length r.body)
      then (error 413 (text "PAYLOAD_TOO_LARGE") (text "request body exceeds 500MB limit"), w)
      else parse_batch fresh r kc w
