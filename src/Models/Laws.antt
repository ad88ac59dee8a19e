-- ===== src/Models/Laws.antt =====
-- What validation and enrichment establish.
use quantumbilling.Common.{◌≡◌, ◌↔◌, ◌≢◌, ◌⊎◌, [], refl, false, none, arith}
use quantumbilling.Common.Int.{is_neg, is_zero}
use quantumbilling.Common.Float.{lt_zero}
use quantumbilling.Models.EventId.Laws.{new_event_id-ne-nil}
use quantumbilling.Models.{UsageEvent, KeyContext, Fresh, validate, enrich}

pub record IsValid (e : UsageEvent) : Type 0 where
  pub typed : e.event_type ≢ []
  pub modelled : e.model ≢ []
  pub input : is_neg e.input_tokens ≡ false
  pub output : is_neg e.output_tokens ≡ false
  pub thinking : is_neg e.thinking_tokens ≡ false
  pub total : lt_zero e.total_tokens ≡ false

pub validate_iff : (e : UsageEvent) → (validate e ≡ none) ↔ IsValid e
unfolding validate
validate_iff e = ground arith

-- What an event owes to the key context: its tenant, its source and its key.
pub record IsScoped (kc : KeyContext) (e : UsageEvent) : Type 0 where
  pub org : e.org_id ≡ kc.org_id
  pub customer : (kc.customer_id ≡ []) ⊎ (e.customer_id ≡ kc.customer_id)
  pub source : e.source_mode ≡ kc.source_mode
  pub key : e.key_id ≡ kc.key_id

pub enrich-IsScoped : (kc : KeyContext) (f : Fresh) (e : UsageEvent) → IsScoped kc (enrich kc f e)
unfolding enrich
enrich-IsScoped kc f e = ground arith

-- Enriching is stable: a second pass with the same key, whatever identifier and time it draws,
-- changes nothing, provided that the first pass read a nonzero time.
pub enrich_idem :
    (kc : KeyContext) (f g : Fresh) (e : UsageEvent)
    → is_zero f.now_ms ≡ false
    → enrich kc g (enrich kc f e) ≡ enrich kc f e
unfolding enrich
enrich_idem kc f g e hms = ground (arith, new_event_id-ne-nil f.random f.nanos)

-- The measured fields, which validation reads, pass through.
pub validate-enrich :
    (kc : KeyContext) (f : Fresh) (e : UsageEvent) → validate (enrich kc f e) ≡ validate e
unfolding validate enrich
validate-enrich kc f e = refl
