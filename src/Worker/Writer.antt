-- ===== src/Worker/Writer.antt =====
-- engine/internal/clickhouse/writer.go: the defaults of a row, the counters, and the interface that
-- the service uses of the writer.
pub mod Laws
pub mod Config
use quantumbilling.Common.{
  ℕ, ◌+◌, ◌%◌, ◌^◌, List, [], ◌∷◌, Text, text, is_empty, Bool, true, map, length, if◌then◌else◌,
  ◌≡◌,
}
use quantumbilling.Common.Int.{add32}
use quantumbilling.Common.Float.{eq_zero, from_int32}
use quantumbilling.Models.{UsageEvent, source_mode_direct_ingest}

-- The counters, each an `atomic.Int64` by its bits.
pub record Writer : Type 0 where
  pub inserted_rows : ℕ
  pub inserted_bytes : ℕ
  pub insert_errors : ℕ

abbrev pub new_writer : Writer
new_writer = record { inserted_rows = 0; inserted_bytes = 0; insert_errors = 0 }

-- `defaultEvent`, which is also the body of the loop in `InsertEventBatch`.
unfoldable pub default_event : UsageEvent → UsageEvent
default_event e = record e {
  total_tokens =
      if eq_zero e.total_tokens
      then from_int32 (add32 e.input_tokens e.output_tokens)
      else e.total_tokens;
  source_mode = if is_empty e.source_mode then source_mode_direct_ingest else e.source_mode;
}

-- `InsertEventBatch`, with the events as it leaves them, since it writes through their pointers. Its
-- error is nil.
unfoldable pub insert_event_batch : List UsageEvent → Writer → List UsageEvent × Writer
unfolding default_event
insert_event_batch [] w = ([], w)
insert_event_batch (e ∷ es) w = (
  map default_event (e ∷ es),
  record w { inserted_rows = (w.inserted_rows + length (e ∷ es)) % 2 ^ 64 },
)

-- `Metrics`
unfoldable pub metrics : Writer → List (Text × ℕ)
metrics w =
    (text "clickhouse_inserted_rows", w.inserted_rows)
    ∷ (text "clickhouse_inserted_bytes", w.inserted_bytes)
    ∷ (text "clickhouse_insert_errors", w.insert_errors)
    ∷ []

-- What the service calls: whether the insert went through, the events as it leaves them, and the
-- state of the writer.
pub record Sink : Type 1 where
  pub State : Type 0
  pub insert : List UsageEvent → State → Bool × List UsageEvent × State

abbrev pub ids : List UsageEvent → List Text
ids es = map (λ e. e.event_id) es

-- An insert writes defaults into the events, whether it goes through or not: they stay the same
-- events in the same order.
pub record SinkLaws (sink : Sink) : Type 0 where
  pub ids-insert : (es : List UsageEvent) (st : sink.State) → ids (sink.insert es st).1 ≡ ids es

abbrev pub writer_sink : Sink
writer_sink = record {
  State = Writer;
  insert = λ es w. (true, (insert_event_batch es w).0, (insert_event_batch es w).1);
}
