-- ===== src/Tests/Worker.antt =====
-- The theorems on the worker at concrete events.
use quantumbilling.Common.{
  Text, ℕ, zero, suc, ◌<◌, Bool, ◌≡◌, ◌≢◌, ◌≤◌, ◌+◌, refl, List, [], ◌∷◌, ◌++◌, text, true, false,
  length, arith,
}
use quantumbilling.Models.{UsageEvent}
use quantumbilling.Worker.Writer.{new_writer, insert_event_batch, Sink, ids, writer_sink}
use quantumbilling.Worker.Writer.Laws.{writer_sink-SinkLaws}
use quantumbilling.Worker.Service
use quantumbilling.Worker.Service.{Buffer, add_events, append_events, serve}
use quantumbilling.Worker.System.{
  System, new_buffer, settling, append, take, put, Reach, start, later,
}
use quantumbilling.Worker.Conserved.{count, count_all, conserved}
use quantumbilling.Worker.Ordered.{joined, ordered}
use quantumbilling.Worker.Retry.{Outage}
use quantumbilling.Worker.Drain.{serve-add_events_full, add_all, add_all-eq}
use quantumbilling.Samples.{event}

abbrev other : UsageEvent
other = record event { event_id = text "e2" }

-- Two events come in, a flush takes the first one and sends it.
abbrev with_one : System writer_sink
with_one = record {
  buffer = append_events (event ∷ []) new_buffer;
  taken = [];
  writer = new_writer;
  added = event ∷ [];
  sent = [];
}

abbrev in_flight : System writer_sink
in_flight = record {
  buffer = append_events (other ∷ []) new_buffer;
  taken = (event ∷ []) ∷ [];
  writer = new_writer;
  added = event ∷ other ∷ [];
  sent = [];
}

taken_one : Reach writer_sink true new_writer in_flight
unfolding Service.swap
taken_one =
    later (later (later start (append (event ∷ []))) (take (λ h. refl))) (append (other ∷ []))

taken_any : Reach writer_sink false new_writer in_flight
unfolding Service.swap
taken_any =
    later (later (later start (append (event ∷ []))) (take (λ h. refl))) (append (other ∷ []))

abbrev settled : System writer_sink
settled = settling writer_sink (event ∷ []) [] in_flight

conserved_example :
    count (text "e1") settled.sent
      + count_all (text "e1") settled.taken
      + count (text "e1") settled.buffer.current_batch
    ≡ count (text "e1") settled.added
conserved_example =
    conserved writer_sink writer_sink-SinkLaws (text "e1")
      (later taken_any (put [] [] (event ∷ []) refl))

ordered_example :
    ids settled.sent ++ (joined settled.taken ++ ids settled.buffer.current_batch)
    ≡ ids settled.added
ordered_example =
    ordered writer_sink writer_sink-SinkLaws (later taken_one (put [] [] (event ∷ []) refl))

some_event : event ∷ other ∷ [] ≢ []
some_event = cc

fills : 2 ≤ length (new_buffer.current_batch ++ event ∷ other ∷ [])
fills = ground arith

serve-add_events_full_example :
    serve writer_sink (add_events 2 (event ∷ other ∷ []) new_buffer, new_writer) ≡ (
      record { current_batch = []; signalled = false },
      (insert_event_batch (new_buffer.current_batch ++ event ∷ other ∷ []) new_writer).1,
    )
serve-add_events_full_example =
    serve-add_events_full 2 (event ∷ other ∷ []) new_buffer new_writer some_event fills

-- Two arrivals between two turns of the loop, with a batch size of one.
add_all-eq_example :
    (add_all 1 ((event ∷ []) ∷ (other ∷ event ∷ []) ∷ []) new_buffer).current_batch
    ≡ event ∷ other ∷ event ∷ []
add_all-eq_example = add_all-eq 1 ((event ∷ []) ∷ (other ∷ event ∷ []) ∷ []) new_buffer

-- A sink that fails as often as its state says, and keeps the identifiers that it stores.
abbrev flaky_insert : List UsageEvent → ℕ × List Text → Bool × List UsageEvent × (ℕ × List Text)
flaky_insert es (zero, log) = (true, es, (zero, log ++ ids es))
flaky_insert es (suc n, log) = (false, es, (n, log))

abbrev flaky_sink : Sink
flaky_sink = record { State = ℕ × List Text; insert = flaky_insert }

flaky_shorter :
    (es : List UsageEvent) (st : ℕ × List Text)
    → (flaky_insert es st).0 ≡ false
    → (flaky_insert es st).2.0 < st.0
flaky_shorter es (zero, log) fails = absurd (ground (arith, fails))
flaky_shorter es (suc n, log) fails = omega arith

flaky_stored :
    (es : List UsageEvent) (st : ℕ × List Text)
    → (flaky_insert es st).0 ≡ true
    → (flaky_insert es st).2.1 ≡ st.1 ++ ids es
flaky_stored es (zero, log) ok = refl
flaky_stored es (suc n, log) ok = absurd (ground (arith, ok))

flaky_refused :
    (es : List UsageEvent) (st : ℕ × List Text)
    → (flaky_insert es st).0 ≡ false
    → (flaky_insert es st).2.1 ≡ st.1
flaky_refused es (zero, log) fails = absurd (ground (arith, fails))
flaky_refused es (suc n, log) fails = refl

flaky_ids : (es : List UsageEvent) (st : ℕ × List Text) → ids (flaky_insert es st).1 ≡ ids es
flaky_ids es (zero, log) = refl
flaky_ids es (suc n, log) = refl

abbrev flaky_outage : Outage flaky_sink
flaky_outage = record {
  left = λ st. st.0;
  received = λ st. st.1;
  shorter = flaky_shorter;
  stored = flaky_stored;
  refused = flaky_refused;
  same = record { ids-insert = flaky_ids };
}

abbrev one_pending : Buffer
one_pending = record { current_batch = event ∷ []; signalled = false }
