-- ===== src/Batch/Lookup/Split.antt =====
-- `splitPair` and the keys of end users that the batch looks up.
use quantumbilling.Common.{◌≡◌, refl, [], ◌∷◌, ◌++◌, Text, none, some, arith}
use quantumbilling.Common.Search.{LacksColon}
use quantumbilling.Models.{UsageEvent}
use quantumbilling.Ingest.Verify.{end_user_key}
use quantumbilling.Batch.Process.{pair_of}
use quantumbilling.Batch.Lookup.{last_colon, split_pair, pair_key}

last_colon-none : (s : Text) → LacksColon s → last_colon s ≡ none
unfolding last_colon
last_colon-none [] h = refl
last_colon-none (c ∷ s) h = ground (arith, last_colon-none s h.1)

last_colon-some :
    (before behind : Text)
    → LacksColon behind
    → last_colon (before ++ b':' ∷ behind) ≡ some (before, behind)
unfolding last_colon
last_colon-some [] behind h = ground (arith, last_colon-none behind h)
last_colon-some (c ∷ before) behind h = ground (arith, last_colon-some before behind h)

-- The two texts around a colon come back if the second one has no colon, whatever the first holds:
-- an organization and an end user from their pair, but a part of the end user's identifier goes to
-- the organization if that identifier has a colon.
pub split_pair-append :
    (before behind : Text)
    → LacksColon behind
    → split_pair (before ++ b':' ∷ behind) ≡ (before, behind)
unfolding split_pair
split_pair-append before behind h = rw (last_colon-some before behind h, split_pair)

-- A pair of the batch is looked up under the key that the single-event handler uses, if the end
-- user's identifier has no colon.
pub pair_key-pair_of :
    (e : UsageEvent)
    → LacksColon e.end_user_id
    → pair_key (pair_of e) ≡ end_user_key e.org_id e.end_user_id
pair_key-pair_of e h = ground (arith, split_pair-append e.org_id e.end_user_id h)
