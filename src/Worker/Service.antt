-- ===== src/Worker/Service.antt =====
-- engine/internal/orchestration/analytics_service.go: the buffer, the channel of one place, and a
-- flush in the two sections that hold the lock.
use quantumbilling.Common.{ℕ, List, [], ◌∷◌, ◌++◌, Bool, true, false, length, leb, if◌then◌else◌}
use quantumbilling.Models.{UsageEvent}
use quantumbilling.Worker.Writer.{Sink}

-- The fields that the methods change. `signalled`: `flushCh` holds its one token.
pub record Buffer : Type 0 where
  pub current_batch : List UsageEvent
  pub signalled : Bool

-- `select { case s.flushCh <- struct{}{}: default: }`
abbrev pub notify : Buffer → Buffer
notify b = record b { signalled = true }

-- The locked section of `AddEvents`
abbrev pub append_events : List UsageEvent → Buffer → Buffer
append_events es b = record b { current_batch = b.current_batch ++ es }

-- `AddEvents`, where `size` is `batchSize`
unfoldable pub add_events : ℕ → List UsageEvent → Buffer → Buffer
add_events size [] b = b
add_events size (e ∷ es) b =
    let b' = append_events (e ∷ es) b in
    if leb size (length b'.current_batch) then notify b' else b'

-- `case <-ticker.C` of `Start`
unfoldable pub tick : Buffer → Buffer
tick b = elim b.current_batch [ [] ↦ b | e ∷ es ↦ notify b ]

-- The first locked section of `Flush`: the batch, empty if there is nothing to do.
unfoldable pub swap : Buffer → List UsageEvent × Buffer
swap b = (b.current_batch, record b { current_batch = [] })

-- The second one, after a failure: the batch goes to the front.
unfoldable pub requeue : List UsageEvent → Buffer → Buffer
requeue batch b = record b { current_batch = batch ++ b.current_batch }

-- `PendingCount`
unfoldable pub pending_count : Buffer → ℕ
pending_count b = length b.current_batch

module _ (sink : Sink) where
  -- The end of a flush: the call of the writer, then what its error decides.
  unfoldable pub settle : List UsageEvent → sink.State → Buffer → Buffer × sink.State
  unfolding requeue
  settle batch st b =
      let (ok, batch', st') = sink.insert batch st in (if ok then b else requeue batch' b, st')

  -- `Flush` with nobody in between
  unfoldable pub flush : Buffer × sink.State → Buffer × sink.State
  unfolding swap settle
  flush (b, st) = elim (swap b).0 [ [] ↦ (b, st) | e ∷ es ↦ settle (e ∷ es) st (swap b).1 ]

  -- `case <-s.flushCh` of `Start`, which waits while there is no token
  unfoldable pub serve : Buffer × sink.State → Buffer × sink.State
  unfolding flush
  serve (b, st) = if b.signalled then flush (record b { signalled = false }, st) else (b, st)
