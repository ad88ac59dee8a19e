-- ===== src/Ingest/Replies.antt =====
-- What the single-event handler may answer a request with, and the requests of a sequence.
use quantumbilling.Common.{List, [], ◌∷◌, Bool, true, false, Option, Option-cases, inl, inr, arith}
use quantumbilling.Models.{UsageEvent, KeyContext, Fresh, enrich}
use quantumbilling.Models.Codec.{Json}
use quantumbilling.Platform.Redis.{Redis, Reply, reply, unavailable}
use quantumbilling.Http.{Request, Response, error, event_accepted, batch_accepted, World}
use quantumbilling.Ingest.{
  IngestHandler, serialize_and_publish, check_end_user, check_org, claimed, claim, admit,
  handle_single_event,
}
use quantumbilling.Ingest.Verify.{verify_org, verify_end_user}

-- One request as it arrives: the clock and the random source at that time, and what the middleware
-- has put into its context.
pub record Call : Type 0 where
  pub fresh : Fresh
  pub request : Request
  pub context : Option KeyContext

module _ (redis : Redis) (json : Json) (h : IngestHandler) where
  unfoldable pub handle_all : List Call → World redis → List Response × World redis
  handle_all [] w = ([], w)
  handle_all (c ∷ cs) w =
      let (r, v) = handle_single_event redis json h c.fresh c.request c.context w in
      let (rs, u) = handle_all cs v in (r ∷ rs, u)

  -- A single request is answered with an error or with the identifier of its event.
  abbrev pub IsEventReply : Response → Type 0
  IsEventReply (error status code message) = Unit
  IsEventReply (event_accepted id) = Unit
  IsEventReply (batch_accepted accepted failed) = ⊥

  module _ (e : UsageEvent) where
    serialize-IsEventReply :
        (w : World redis) → IsEventReply (serialize_and_publish redis json h e w).0
    unfolding serialize_and_publish
    serialize-IsEventReply w = ground arith

    end_user-IsEventReply : (w : World redis) → IsEventReply (check_end_user redis json h e w).0
    unfolding check_end_user verify_end_user
    end_user-IsEventReply w = ground (
      arith,
      serialize-IsEventReply w,
      serialize-IsEventReply
          (record w { store = (verify_end_user redis h.pg e.org_id e.end_user_id w.store).1 }),
    )

    org-IsEventReply : (w : World redis) → IsEventReply (check_org redis json h e w).0
    unfolding check_org verify_org
    org-IsEventReply w = ground (
      arith,
      end_user-IsEventReply (record w { store = (verify_org redis h.pg e.org_id w.store).1 }),
    )

    claimed-IsEventReply :
        (r : Reply Bool) (w : World redis) → IsEventReply (claimed redis json h e r w).0
    unfolding claimed
    claimed-IsEventReply unavailable w = tt
    claimed-IsEventReply (reply false) w = tt
    claimed-IsEventReply (reply true) w = org-IsEventReply w

    claim-IsEventReply : (w : World redis) → IsEventReply (claim redis json h e w).0
    unfolding claim
    claim-IsEventReply w = claimed-IsEventReply _ _

    pub admit-IsEventReply : (w : World redis) → IsEventReply (admit redis json h e w).0
    unfolding admit
    admit-IsEventReply w = ground (arith, claim-IsEventReply w)

  pub handle-IsEventReply :
      (c : Call) (w : World redis)
      → IsEventReply (handle_single_event redis json h c.fresh c.request c.context w).0
  unfolding handle_single_event
  handle-IsEventReply c w = elim (Option-cases c.context) [
    | inl none_given ↦ ground (arith, none_given)
    | inr (kc, given) ↦ elim (Option-cases (json.unmarshal_event c.request.body)) [
      | inl p ↦ ground (arith, given)
      | inr (e, p) ↦ ground (arith, given, admit-IsEventReply (enrich kc c.fresh e) w)
    ]
  ]
