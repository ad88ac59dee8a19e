-- ===== src/Ingest/Ledger/Refines.antt =====
-- The handler of POST /v1/events against the ledger of its claims.
use quantumbilling.Common.{
  List, [], ◌∷◌, ◌≡◌, ◌∙◌, refl, sym, ap, Text, text_eq, text_eq_iff, Bool, true, false, is_any,
  ◌||◌, Option, none, some, Option-cases, Bool-cases, inl, inr, arith,
}
use quantumbilling.Models.{UsageEvent, enrich}
use quantumbilling.Models.Codec.{Json}
use quantumbilling.Platform.Redis.{Redis, RedisLaws}
use quantumbilling.Http.{Response, error, event_accepted, batch_accepted, World}
use quantumbilling.Ingest.{IngestHandler, idem_key, admit, handle_single_event}
use quantumbilling.Ingest.Laws.{admit-id}
use quantumbilling.Ingest.Accepted.{handle-Passed}
use quantumbilling.Ingest.Rollback.{is_error}
use quantumbilling.Ingest.Replies.{
  Call, handle_all, IsEventReply, admit-IsEventReply, handle-IsEventReply,
}
use quantumbilling.Ingest.Once.{handle-keeps_claims}
use quantumbilling.Ingest.Once.Claims.{
  live-admit, admit_accepted, admit_accepted_free, held-admit_other, held-admit_refused,
}
use quantumbilling.Ingest.Ledger.{
  Step, refuse, enter, Trace, done, more, is_distinct, is_distinct-trace,
}

abbrev is_some : Option Text → Bool
is_some none = false
is_some (some v) = true

is_any-head : (k j : Text) (ks : List Text) → is_any k (j ∷ ks) ≡ text_eq j k || is_any k ks
unfolding is_any
is_any-head k j ks = refl

module _ (redis : Redis) (laws : RedisLaws redis) (json : Json) (h : IngestHandler) where
  open laws use {held, live}

  -- Redis answers, and the ledger has the idempotency keys that Redis holds.
  pub record IsLedgerOf (w : World redis) (ledger : List Text) : Type 0 where
    pub up : live w.store ≡ true
    pub same : (d : UsageEvent) → is_some (held w.store (idem_key d)) ≡ is_any (idem_key d) ledger

  -- What a request leads to: a step of the ledger.
  pub record Next (r : Response) (w : World redis) (ledger : List Text) : Type 0 where
    pub after : List Text
    pub step : Step ledger r after
    pub kept : IsLedgerOf w after

  admit-Next :
      (e : UsageEvent) (w : World redis) (ledger : List Text)
      → IsLedgerOf w ledger
      → Next (admit redis json h e w).0 (admit redis json h e w).1 ledger
  admit-Next e w ledger l = go (admit redis json h e w).0 refl (admit-IsEventReply redis json h e w)
    where
      go :
          (r : Response)
          → r ≡ (admit redis json h e w).0
          → IsEventReply redis json h r
          → Next r (admit redis json h e w).1 ledger
      go (error status code message) q ok = record {
        after = ledger;
        step = refuse status code message;
        kept = record {
          up = live-admit redis laws json h e w l.up;
          same = λ d.
              ap is_some (held-admit_refused redis laws json h e w l.up d (ap is_error (sym q)))
              ∙ l.same d;
        };
      }
      go (event_accepted id) q ok =
          let free = admit_accepted_free redis laws json h e w l.up id (sym q) in
          let now = admit_accepted redis laws json h e w l.up id (sym q) in
          let about = admit-id redis json h e w id (sym q) in
          record {
            after = idem_key e ∷ ledger;
            step = rw about.1.0 (enter e (sym (l.same e) ∙ ap is_some free));
            kept = record {
              up = live-admit redis laws json h e w l.up;
              same = λ d. elim (Bool-cases (text_eq (idem_key e) (idem_key d))) [
                | inl p ↦ ground (
                  arith,
                  now.1,
                  text_eq_iff (idem_key e) (idem_key d),
                  is_any-head (idem_key d) (idem_key e) ledger,
                )
                | inr p ↦ ground (
                  arith,
                  held-admit_other redis laws json h e w l.up d
                      (λ q. ground (arith, text_eq_iff (idem_key e) (idem_key d))),
                  l.same d,
                  is_any-head (idem_key d) (idem_key e) ledger,
                )
              ];
            };
          }
      go (batch_accepted accepted failed) q ok = absurd ok

  live-handle :
      (c : Call) (w : World redis)
      → live w.store ≡ true
      → live (handle_single_event redis json h c.fresh c.request c.context w).1.store ≡ true
  unfolding handle_single_event
  live-handle c w up = elim (Option-cases c.context) [
    | inl none_given ↦ ground (arith, none_given)
    | inr (kc, given) ↦ elim (Option-cases (json.unmarshal_event c.request.body)) [
      | inl p ↦ ground (arith, given)
      | inr (e, p) ↦ ground (arith, given, live-admit redis laws json h (enrich kc c.fresh e) w up)
    ]
  ]

  -- The handler implements the ledger: while Redis answers, every request is a step of the ledger of
  -- the idempotency keys that Redis holds, whatever its body, its context and the answers of
  -- Postgres: an error leaves the ledger as it was, and an accepted event's key was not in it and is
  -- entered.
  pub handle-Step :
      (c : Call) (w : World redis) (ledger : List Text)
      → IsLedgerOf w ledger
      → Next
          (handle_single_event redis json h c.fresh c.request c.context w).0
          (handle_single_event redis json h c.fresh c.request c.context w).1
          ledger
  handle-Step c w ledger l =
      go (handle_single_event redis json h c.fresh c.request c.context w).0 refl
        (handle-IsEventReply redis json h c w)
    where
      go :
          (r : Response)
          → r ≡ (handle_single_event redis json h c.fresh c.request c.context w).0
          → IsEventReply redis json h r
          → Next r (handle_single_event redis json h c.fresh c.request c.context w).1 ledger
      go (error status code message) q ok = record {
        after = ledger;
        step = refuse status code message;
        kept = record {
          up = live-handle c w l.up;
          same = λ d.
              ap is_some (
                handle-keeps_claims redis laws json h c.fresh c.request c.context w d l.up
                  (ap is_error (sym q)))
              ∙ l.same d;
        };
      }
      go (event_accepted id) q ok =
          let p = handle-Passed redis json h c.fresh c.request c.context w id (sym q) in
          let o = p.run w c.fresh in
          rw (q, o) (admit-Next (enrich p.context c.fresh p.parsed) w ledger l)
      go (batch_accepted accepted failed) q ok = absurd ok

  pub record Served (rs : List Response) (w : World redis) (ledger : List Text) : Type 0 where
    pub after : List Text
    pub trace : Trace ledger rs after
    pub kept : IsLedgerOf w after
    pub once : is_distinct ledger ≡ true → is_distinct after ≡ true

  -- Over any sequence of requests, of whatever tenants, while Redis answers: the replies are a trace
  -- of the ledger, so that from a ledger with no key twice no key is entered a second time, and at
  -- the end the ledger is still that of the keys that Redis holds.
  pub handle_all-Served :
      (cs : List Call) (w : World redis) (ledger : List Text)
      → IsLedgerOf w ledger
      → Served (handle_all redis json h cs w).0 (handle_all redis json h cs w).1 ledger
  unfolding handle_all
  handle_all-Served [] w ledger l = record { after = ledger; trace = done; kept = l; once = λ d. d }
  handle_all-Served (c ∷ cs) w ledger l =
      let one = handle-Step c w ledger l in
      let rest =
        handle_all-Served cs (handle_single_event redis json h c.fresh c.request c.context w).1
          one.after one.kept in
      let trace = more one.step rest.trace in
      record { after = rest.after; trace = trace; kept = rest.kept; once = is_distinct-trace trace }
