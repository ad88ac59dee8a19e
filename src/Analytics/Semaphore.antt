-- ===== src/Analytics/Semaphore.antt =====
-- `withSemaphore` of engine/internal/analytics/service.go: a channel of ten places, which a query
-- fills before it runs and empties when it is done. A step is one of a goroutine's.
use quantumbilling.Common.{ℕ, zero, suc, ◌+◌, ◌≤◌, ◌<◌, ◌≡◌, sym, refl, arith}

abbrev pub capacity : ℕ
capacity = 10

-- How many goroutines wait to send, run their function, and are done; `tokens` is the length of the
-- channel's buffer.
pub record Queries : Type 0 where
  pub waiting : ℕ
  pub running : ℕ
  pub finished : ℕ
  pub tokens : ℕ

abbrev pub idle : Queries
idle = record { waiting = 0; running = 0; finished = 0; tokens = 0 }

pub data Step (q : Queries) : Queries → Type 0 where
  -- a call of `withSemaphore`
  arrive : Step q (record q { waiting = suc q.waiting })
  -- the send, which blocks while the buffer is full
  acquire :
      (n : ℕ)
      → q.waiting ≡ suc n
      → q.tokens < capacity
      → Step q (record q { waiting = n; running = suc q.running; tokens = suc q.tokens })
  -- the function returns or panics, and the deferred receive runs
  release :
      (n m : ℕ)
      → q.running ≡ suc n
      → q.tokens ≡ suc m
      → Step q (record q { running = n; tokens = m; finished = suc q.finished })

pub data Reach : Queries → Type 0 where
  start : Reach idle
  later : {q r : Queries} → Reach q → Step q r → Reach r

record IsBounded (q : Queries) : Type 0 where
  counted : q.running ≡ q.tokens
  room : q.tokens ≤ capacity

step-IsBounded : {q r : Queries} → IsBounded q → Step q r → IsBounded r
step-IsBounded b arrive = record { counted = b.counted; room = b.room }
step-IsBounded b (acquire n w free) = record {
  counted = omega (arith, b.counted);
  room = omega (arith, free);
}
step-IsBounded b (release n m p t) = record {
  counted = omega (arith, b.counted, p, t);
  room = omega (arith, b.room, t);
}

reach-IsBounded : {q : Queries} → Reach q → IsBounded q
reach-IsBounded start = record { counted = refl; room = ground arith }
reach-IsBounded (later h s) = step-IsBounded (reach-IsBounded h) s

-- A step by which a query starts or ends.
pub record Advances (q : Queries) : Type 0 where
  pub next : Queries
  pub step : Step q next
  pub gain :
      next.finished + next.finished + next.running ≡ suc (q.finished + q.finished + q.running)

-- Under every interleaving of calls, at most ten queries run at a time, and while a query waits or
-- runs, one can start or end.
pub reach-Advances :
    (q : Queries) → Reach q → (q.running ≤ 10) × ((0 < q.waiting + q.running) → Advances q)
reach-Advances q h =
    let b = reach-IsBounded h in
    (omega (arith, b.counted, b.room), go q.waiting q.running refl refl b)
  where
    go :
        (w r : ℕ)
        → w ≡ q.waiting
        → r ≡ q.running
        → IsBounded q
        → 0 < q.waiting + q.running
        → Advances q
    go w (suc r) at_w at_r b busy =
        let some_token : q.tokens ≡ suc r = omega (arith, at_r, b.counted) in
        record {
          next = record q { running = r; tokens = r; finished = suc q.finished };
          step = release r r (sym at_r) some_token;
          gain = omega (arith, at_r);
        }
    go (suc w) zero at_w at_r b busy = record {
      next = record q { waiting = w; running = suc q.running; tokens = suc q.tokens };
      step = acquire w (sym at_w) (omega (arith, at_r, b.counted));
      gain = omega arith;
    }
    go zero zero at_w at_r b busy = absurd (omega (arith, at_w, at_r, busy))
