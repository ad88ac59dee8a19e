-- ===== src/Worker/System.antt =====
-- The worker as a system of threads: the consumer's loop of engine/cmd/analytics-worker/main.go
-- that adds events, the ticker's loop and the final flush of the shutdown. A step is one section
-- that holds the lock, or one use of the channel; the call of the writer lies between two steps.
use quantumbilling.Common.{List, [], ◌∷◌, ◌++◌, Bool, true, false, ◌≡◌, if◌then◌else◌}
use quantumbilling.Models.{UsageEvent}
use quantumbilling.Worker.Writer.{Sink}
use quantumbilling.Worker.Service.{Buffer, notify, append_events, tick, swap, settle}

-- `taken` are the batches that running flushes have swapped out. Two histories: the events that
-- came in, and those of the batches whose insert went through, as they were sent.
pub record System (sink : Sink) : Type 0 where
  pub buffer : Buffer
  pub taken : List (List UsageEvent)
  pub writer : sink.State
  pub added : List UsageEvent
  pub sent : List UsageEvent

-- `NewAnalyticsService`
abbrev pub new_buffer : Buffer
new_buffer = record { current_batch = []; signalled = false }

module _ (sink : Sink) where
  abbrev pub initial : sink.State → System sink
  initial st = record { buffer = new_buffer; taken = []; writer = st; added = []; sent = [] }

  -- A flush swaps the buffer out, if there is something in it.
  abbrev pub taking : System sink → System sink
  taking s = elim (swap s.buffer).0 [
    | [] ↦ s
    | e ∷ es ↦ record s { buffer = (swap s.buffer).1; taken = (e ∷ es) ∷ s.taken }
  ]

  -- A flush of `batch` ends, and `rest` are the other ones.
  abbrev pub settling : List UsageEvent → List (List UsageEvent) → System sink → System sink
  settling batch rest s = record s {
    buffer = (settle sink batch s.writer s.buffer).0;
    taken = rest;
    writer = (settle sink batch s.writer s.buffer).1;
    sent =
        if (sink.insert batch s.writer).0 then s.sent ++ (sink.insert batch s.writer).1 else s.sent;
  }

  -- `alone`: a flush starts only when no other one runs.
  pub data Step (alone : Bool) (s : System sink) : System sink → Type 0 where
    append :
        (es : List UsageEvent)
        → Step alone s (record s { buffer = append_events es s.buffer; added = s.added ++ es })
    signal : Step alone s (record s { buffer = notify s.buffer })
    ticker : Step alone s (record s { buffer = tick s.buffer })
    receive : Step alone s (record s { buffer = record s.buffer { signalled = false } })
    take : (alone ≡ true → s.taken ≡ []) → Step alone s (taking s)
    put :
        (before after : List (List UsageEvent)) (batch : List UsageEvent)
        → s.taken ≡ before ++ batch ∷ after
        → Step alone s (settling batch (before ++ after) s)

  pub data Reach (alone : Bool) (st : sink.State) : System sink → Type 0 where
    start : Reach alone st (initial st)
    later : {s t : System sink} → Reach alone st s → Step alone s t → Reach alone st t
