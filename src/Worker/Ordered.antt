-- ===== src/Worker/Ordered.antt =====
-- The order of the events in the worker's system.
use quantumbilling.Common.{
  ◌≤◌, List, [], ◌∷◌, ◌++◌, true, ◌≡◌, refl, ap, subst, Text, arith, append_assoc, append-nil,
  length, length-append,
}
use quantumbilling.Models.{UsageEvent}
use quantumbilling.Worker.Writer.{Sink, SinkLaws, ids}
use quantumbilling.Worker.Service.{settle, tick, swap}
use quantumbilling.Worker.System.{
  System, taking, settling, Step, append, signal, ticker, receive, take, put, Reach, start, later,
}

ids-append : (es fs : List UsageEvent) → ids (es ++ fs) ≡ ids es ++ ids fs
ids-append [] fs = refl
ids-append (e ∷ es) fs = ap (λ t. e.event_id ∷ t) (ids-append es fs)

-- The batches, one after the other.
abbrev pub joined : List (List UsageEvent) → List Text
joined [] = []
joined (b ∷ bs) = ids b ++ joined bs

-- A list of one at most has nothing around one of its elements.
lone :
    (before after : List (List UsageEvent)) (batch : List UsageEvent)
    → length (before ++ batch ∷ after) ≤ 1
    → (before ≡ []) × (after ≡ [])
lone [] [] batch h = (refl, refl)
lone [] (c ∷ after) batch h = ground (arith, h)
lone (b ∷ before) after batch h = ground (arith, h, length-append before (batch ∷ after))

module _ (sink : Sink) (laws : SinkLaws sink) where
  record IsOrdered (s : System sink) : Type 0 where
    few : length s.taken ≤ 1
    order : ids s.sent ++ (joined s.taken ++ ids s.buffer.current_batch) ≡ ids s.added

  take-IsOrdered : (s : System sink) → s.taken ≡ [] → IsOrdered s → IsOrdered (taking sink s)
  unfolding swap
  take-IsOrdered s none_taken o = record {
    few = ground (arith, o.few);
    order = ground (arith, o.order, append-nil (ids s.buffer.current_batch));
  }

  put-IsOrdered :
      (s : System sink) (before after : List (List UsageEvent)) (batch : List UsageEvent)
      → s.taken ≡ before ++ batch ∷ after
      → before ≡ []
      → after ≡ []
      → IsOrdered s
      → IsOrdered (settling sink batch (before ++ after) s)
  unfolding settle
  put-IsOrdered s before after batch eq b a o =
      let ins = (sink.insert batch s.writer).1 in
      record {
        few = ground (arith, b, a);
        order = ground (
          arith,
          o.order,
          b,
          a,
          append-nil (ids batch),
          ids-append s.sent ins,
          ids-append ins s.buffer.current_batch,
          laws.ids-insert batch s.writer,
          append_assoc (ids s.sent) (ids batch) (ids s.buffer.current_batch),
        );
      }

  step-IsOrdered : {s t : System sink} → Step sink true s t → IsOrdered s → IsOrdered t
  unfolding settle tick swap
  step-IsOrdered {s} (append es) o = record {
    few = o.few;
    order = ground (
      arith,
      o.order,
      ids-append s.buffer.current_batch es,
      ids-append s.added es,
      append_assoc (ids s.sent) (joined s.taken ++ ids s.buffer.current_batch) (ids es),
      append_assoc (joined s.taken) (ids s.buffer.current_batch) (ids es),
    );
  }
  step-IsOrdered signal o = record { few = o.few; order = o.order }
  step-IsOrdered {s} ticker o = record {
    few = ground (arith, o.few);
    order = ground (arith, o.order);
  }
  step-IsOrdered receive o = record { few = o.few; order = o.order }
  step-IsOrdered {s} (take free) o = take-IsOrdered s (free refl) o
  step-IsOrdered {s} (put before after batch eq) o =
      let (b, a) = lone before after batch (subst (λ l. length l ≤ 1) eq o.few) in
      put-IsOrdered s before after batch eq b a o

  Reach-IsOrdered : {st : sink.State} {s : System sink} → Reach sink true st s → IsOrdered s
  Reach-IsOrdered start = record { few = omega arith; order = refl }
  Reach-IsOrdered (later r step) = step-IsOrdered step (Reach-IsOrdered r)

  -- When a flush never starts while another one runs, what was sent, the batch of the flush that
  -- runs and the buffer are, in this order, the events that came in, in the order in which they
  -- came. So nothing overtakes a batch that failed.
  pub ordered :
      {st : sink.State} {s : System sink}
      → Reach sink true st s
      → ids s.sent ++ (joined s.taken ++ ids s.buffer.current_batch) ≡ ids s.added
  ordered r = (Reach-IsOrdered r).order
