-- ===== src/Ingest/Ledger.antt =====
-- The contract of the idempotency claims of POST /v1/events
-- (engine/internal/handler/ingest_handler.go), as a machine of its own: its state is the ledger of
-- the keys that are claimed, and it knows neither Redis nor the checks of the handler.
pub mod Refines
use quantumbilling.Common.{
  List, [], ◌∷◌, ◌++◌, ◌≡◌, ◌∙◌, refl, ℕ, Text, Bool, true, false, not, ◌&&◌, is_any, is_any-append,
  arith,
}
use quantumbilling.Models.{UsageEvent}
use quantumbilling.Http.{Response, error, event_accepted, batch_accepted}
use quantumbilling.Ingest.{idem_key}

-- An error leaves the ledger alone. An event is accepted only if its key is not in the ledger, and
-- enters it there.
pub data Step (ledger : List Text) : Response → List Text → Type 0 where
  refuse : (status : ℕ) (code message : Text) → Step ledger (error status code message) ledger
  enter :
      (e : UsageEvent)
      → is_any (idem_key e) ledger ≡ false
      → Step ledger (event_accepted e.event_id) (idem_key e ∷ ledger)

-- The replies of a sequence of requests.
pub data Trace : List Text → List Response → List Text → Type 0 where
  done : {ledger : List Text} → Trace ledger [] ledger
  more :
      {before between after : List Text} {r : Response} {rs : List Response}
      → Step before r between
      → Trace between rs after
      → Trace before (r ∷ rs) after

-- No key stands in the ledger twice.
abbrev pub is_distinct : List Text → Bool
is_distinct [] = true
is_distinct (k ∷ ks) = not (is_any k ks) && is_distinct ks

pub is_distinct-step :
    {before after : List Text} {r : Response}
    → Step before r after
    → is_distinct before ≡ true
    → is_distinct after ≡ true
is_distinct-step (refuse status code message) d = d
is_distinct-step (enter e free) d = ground (arith, free, d)

pub is_distinct-trace :
    {before after : List Text} {rs : List Response}
    → Trace before rs after
    → is_distinct before ≡ true
    → is_distinct after ≡ true
is_distinct-trace done d = d
is_distinct-trace (more s t) d = is_distinct-trace t (is_distinct-step s d)
