-- ===== src/Worker/Retry.antt =====
-- The retries of the worker: a flush whose insert fails puts its batch back, and the ticker of
-- `Start` in engine/internal/orchestration/analytics_service.go tries again.
use quantumbilling.Common.{ℕ, zero, suc, ◌<◌, ◌≡◌, ◌++◌, Text, List, true, false}
use quantumbilling.Models.{UsageEvent}
use quantumbilling.Worker.Writer.{Sink, SinkLaws, ids}
use quantumbilling.Worker.Service.{Buffer, tick, serve}

-- A sink whose outage ends: `left` counts down with every insert that fails. `received` are the
-- identifiers of the events that the sink has stored, in their order: an insert that goes through
-- stores its batch behind them, and one that fails stores nothing. Both leave the events of the
-- batch as they are, up to defaults.
pub record Outage (sink : Sink) : Type 0 where
  pub left : sink.State → ℕ
  pub received : sink.State → List Text
  pub shorter :
      (es : List UsageEvent) (st : sink.State)
      → (sink.insert es st).0 ≡ false
      → left (sink.insert es st).2 < left st
  pub stored :
      (es : List UsageEvent) (st : sink.State)
      → (sink.insert es st).0 ≡ true
      → received (sink.insert es st).2 ≡ received st ++ ids es
  pub refused :
      (es : List UsageEvent) (st : sink.State)
      → (sink.insert es st).0 ≡ false
      → received (sink.insert es st).2 ≡ received st
  pub same : SinkLaws sink

module _ (sink : Sink) where
  -- One period of the ticker: its signal, and the turn of the loop that it wakes.
  abbrev pub turn : Buffer × sink.State → Buffer × sink.State
  turn (b, st) = serve sink (tick b, st)

  unfoldable pub turns : ℕ → Buffer × sink.State → Buffer × sink.State
  turns zero x = x
  turns (suc n) x = turns n (turn x)

  module _ (outage : Outage sink) where
    open outage use {left, received, shorter, stored, refused, same}

    -- What the sink has stored and what is pending, together and in this order.
    abbrev known : Buffer × sink.State → List Text
    known (b, st) = received st ++ ids b.current_batch
