-- ===== src/Worker/Conserved.antt =====
-- The events that the worker's system holds, counted by their identifiers.
use quantumbilling.Common.{
  ℕ, suc, ◌+◌, List, [], ◌∷◌, ◌++◌, Bool, ◌≡◌, refl, ap, Text, text_eq, arith, if◌then◌else◌,
}
use quantumbilling.Models.{UsageEvent}
use quantumbilling.Worker.Writer.{Sink, SinkLaws, ids}
use quantumbilling.Worker.Service.{settle, tick, swap}
use quantumbilling.Worker.System.{
  System, Step, append, signal, ticker, receive, take, put, Reach, start, later,
}

-- How often an identifier stands in a list of identifiers.
abbrev pub tally : Text → List Text → ℕ
tally x [] = 0
tally x (y ∷ ys) = let rest = tally x ys in if text_eq y x then suc rest else rest

-- How many of the events have an identifier.
abbrev pub count : Text → List UsageEvent → ℕ
count x es = tally x (ids es)

abbrev pub count_all : Text → List (List UsageEvent) → ℕ
count_all x [] = 0
count_all x (b ∷ bs) = count x b + count_all x bs

count-append : (x : Text) (es fs : List UsageEvent) → count x (es ++ fs) ≡ count x es + count x fs
count-append x [] fs = omega arith
count-append x (e ∷ es) fs = ground (arith, count-append x es fs)

count_all-append :
    (x : Text) (bs cs : List (List UsageEvent))
    → count_all x (bs ++ cs) ≡ count_all x bs + count_all x cs
count_all-append x [] cs = omega arith
count_all-append x (b ∷ bs) cs = omega (arith, count_all-append x bs cs)

module _ (sink : Sink) (laws : SinkLaws sink) where
  count-insert :
      (x : Text) (es : List UsageEvent) (st : sink.State)
      → count x (sink.insert es st).1 ≡ count x es
  count-insert x es st = ap (tally x) (laws.ids-insert es st)

  -- The events with an identifier that the system holds or has sent.
  abbrev pub known : Text → System sink → ℕ
  known x s = count x s.sent + count_all x s.taken + count x s.buffer.current_batch

  known-step :
      {alone : Bool} {s t : System sink} (x : Text)
      → Step sink alone s t
      → known x s ≡ count x s.added
      → known x t ≡ count x t.added
  unfolding settle tick swap
  known-step {s} x (append es) h =
      ground (arith, count-append x s.buffer.current_batch es, count-append x s.added es)
  known-step x signal h = h
  known-step {s} x ticker h = ground arith
  known-step x receive h = h
  known-step {s} x (take free) h = ground arith
  known-step {s} x (put before after batch eq) h = ground (
    arith,
    ap (count_all x) eq,
    count_all-append x before (batch ∷ after),
    count_all-append x before after,
    count-append x s.sent (sink.insert batch s.writer).1,
    count-append x (sink.insert batch s.writer).1 s.buffer.current_batch,
    count-insert x batch s.writer,
  )

  -- For every identifier, the events that were sent, those of the flushes that run and those in the
  -- buffer are together as many as came in.
  pub conserved :
      {alone : Bool} {st : sink.State} {s : System sink} (x : Text)
      → Reach sink alone st s
      → count x s.sent + count_all x s.taken + count x s.buffer.current_batch ≡ count x s.added
  conserved x start = refl
  conserved x (later r step) = known-step x step (conserved x r)
