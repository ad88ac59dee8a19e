-- ===== src/Worker/Drain.antt =====
-- Turns of the worker's loop.
use quantumbilling.Common.{
  ℕ, ◌≤◌, ◌≡◌, ◌≢◌, refl, ap, List, [], ◌∷◌, ◌++◌, Bool, false, length, arith, append-nil,
  append_assoc, sym, ◌∙◌,
}
use quantumbilling.Models.{UsageEvent}
use quantumbilling.Worker.Writer.{Writer, insert_event_batch, writer_sink}
use quantumbilling.Worker.Service.{
  Buffer, add_events, tick, swap, settle, flush, serve, pending_count,
}

-- A flush empties the buffer into the writer.
flush-eq :
    (es : List UsageEvent) (signal : Bool) (w : Writer)
    → flush writer_sink (record { current_batch = es; signalled = signal }, w)
      ≡ (record { current_batch = []; signalled = signal }, (insert_event_batch es w).1)
unfolding flush swap settle insert_event_batch
flush-eq [] signal w = refl
flush-eq (e ∷ es) signal w = refl

-- Events that fill the buffer are handed to the writer with those before them, in one batch, at the
-- next turn of the loop, which leaves the buffer empty and the channel without a token.
pub serve-add_events_full :
    (size : ℕ) (es : List UsageEvent) (b : Buffer) (w : Writer)
    → es ≢ []
    → size ≤ length (b.current_batch ++ es)
    → serve writer_sink (add_events size es b, w) ≡ (
      record { current_batch = []; signalled = false },
      (insert_event_batch (b.current_batch ++ es) w).1,
    )
unfolding serve add_events
serve-add_events_full size [] b w ne full = elim (ne refl) [ ]
serve-add_events_full size (e ∷ es) b w ne full =
    ground (arith, flush-eq (b.current_batch ++ e ∷ es) false w)

-- After a tick, a turn of the loop leaves nothing pending, however few the events were.
pub pending-serve-tick :
    (b : Buffer) (w : Writer) → pending_count (serve writer_sink (tick b, w)).0 ≡ 0
unfolding serve tick pending_count
pending-serve-tick b w = ground (arith, flush-eq b.current_batch false w)

-- The arrivals between two turns of the loop.
unfoldable pub add_all : ℕ → List (List UsageEvent) → Buffer → Buffer
add_all size [] b = b
add_all size (es ∷ arrivals) b = add_all size arrivals (add_events size es b)

abbrev pub concat : List (List UsageEvent) → List UsageEvent
concat [] = []
concat (es ∷ arrivals) = es ++ concat arrivals

current_batch-add_events :
    (size : ℕ) (es : List UsageEvent) (b : Buffer)
    → (add_events size es b).current_batch ≡ b.current_batch ++ es
unfolding add_events
current_batch-add_events size [] b = sym (append-nil b.current_batch)
current_batch-add_events size (e ∷ es) b = ground arith

-- Whatever the batch size is, the buffer holds all the events of all the arrivals between two turns
-- of the loop, in their order behind those it had: nothing caps it, and nothing is dropped.
pub add_all-eq :
    (size : ℕ) (arrivals : List (List UsageEvent)) (b : Buffer)
    → (add_all size arrivals b).current_batch ≡ b.current_batch ++ concat arrivals
unfolding add_all
add_all-eq size [] b = sym (append-nil b.current_batch)
add_all-eq size (es ∷ arrivals) b =
    add_all-eq size arrivals (add_events size es b)
    ∙ ap (λ xs. xs ++ concat arrivals) (current_batch-add_events size es b)
    ∙ append_assoc b.current_batch es (concat arrivals)
