-- ===== src/Batch/Process/Counts.antt =====
-- The counts of a batch, and where its accepted events come from.
use quantumbilling.Common.{
  ℕ, suc, ◌+◌, ◌≡◌, refl, ap, ◌∙◌, sym, append_assoc, append-nil, List, [], ◌∷◌, ◌++◌, Text, is_any,
  is_empty, true, not, ◌&&◌, arith, length, length-append, All, ◌⊎◌, Bool-cases, inl, inr,
}
use mathlib.Core.List.{Sublistᴰ}
use quantumbilling.Models.{UsageEvent}
use quantumbilling.Platform.Redis.{Redis, Reply, reply, unavailable}
use quantumbilling.Batch.Process.{
  BatchResult, reject_unknown_org, reject_end_user, reject_duplicate, accept, Loop, dedup,
  process_event, process_from, process_batch_events, pair_of, check_bloom, reserve, record_accepted,
  bf_key, start,
}

-- The counts after `n` events.
pub record IsCounted (n : ℕ) (r : BatchResult) : Type 0 where
  pub all : length r.accepted + r.failed_count ≡ n
  pub failed : r.failed_count ≡ r.duplicate_count + r.unknown_org_count + r.user_not_in_org_count
  pub reported : length r.errors ≡ r.unknown_org_count + r.user_not_in_org_count

module _ (n : ℕ) (r : BatchResult) (c : IsCounted n r) where
  unknown_org-IsCounted : (i : ℕ) (e : UsageEvent) → IsCounted (suc n) (reject_unknown_org i e r)
  unfolding reject_unknown_org
  unknown_org-IsCounted i e = omega (arith, c, length-append {0})

  end_user-IsCounted : (i : ℕ) (e : UsageEvent) → IsCounted (suc n) (reject_end_user i e r)
  unfolding reject_end_user
  end_user-IsCounted i e = omega (arith, c, length-append {0})

  duplicate-IsCounted : IsCounted (suc n) (reject_duplicate r)
  unfolding reject_duplicate
  duplicate-IsCounted = omega (arith, c)

  accept-IsCounted : (e : UsageEvent) → IsCounted (suc n) (accept e r)
  unfolding accept
  accept-IsCounted e = omega (arith, c, length-append {0})

-- What `dedup` makes of the result: the event is accepted or counted as a duplicate.
module _ (redis : Redis) (shards : ℕ) where
  pub check_bloom-result :
      (r : Reply ℕ) (e : UsageEvent) (l : Loop redis)
      → (check_bloom redis shards r e l).1.result ≡ l.result
  unfolding check_bloom
  check_bloom-result unavailable e l = ground arith
  check_bloom-result (reply n) e l = ground arith

  pub reserve-result :
      (e : UsageEvent) (l : Loop redis) → (reserve redis shards e l).result ≡ l.result
  unfolding reserve
  reserve-result e l = ground arith

  pub record_accepted-result :
      (x : ℕ) (e : UsageEvent) (l : Loop redis)
      → (record_accepted redis shards x e l).result ≡ accept e l.result
  unfolding record_accepted
  record_accepted-result x e l = refl

  pub dedup-result :
      (e : UsageEvent) (l : Loop redis)
      → ((dedup redis shards e l).result ≡ accept e l.result)
        ⊎ ((dedup redis shards e l).result ≡ reject_duplicate l.result)
  unfolding dedup
  dedup-result e l =
      let l1 = reserve redis shards e l in
      let out = redis.bf_exists (bf_key shards e) e.event_id l1.store in
      let l2 = record l1 { store = out.1 } in
      let checked = check_bloom redis shards out.0 e l2 in
      let same : checked.1.result ≡ l.result = check_bloom-result out.0 e l2 ∙ reserve-result e l in
      elim (Bool-cases checked.0.0) [
        | inl go_on ↦ inl (
            rw (go_on, dedup) (record_accepted-result checked.0.1 e checked.1 ∙ ap (accept e) same))
        | inr stop ↦ inr (rw (stop, dedup) (ap reject_duplicate same))
      ]

  module _ (valid_orgs valid_eus : List Text) where
    -- The batch keeps an event only if its organization and its end user are known.
    abbrev pub Known : UsageEvent → Type 0
    Known e =
        (is_any e.org_id valid_orgs ≡ true)
        × ((e.end_user_id ≡ []) ⊎ (is_any (pair_of e) valid_eus ≡ true))

    -- What the loop's body makes of the result.
    data Step (i : ℕ) (e : UsageEvent) (r r' : BatchResult) : Type 0 where
      kept : Known e → r' ≡ accept e r → Step i e r r'
      doubled : r' ≡ reject_duplicate r → Step i e r r'
      no_org : r' ≡ reject_unknown_org i e r → Step i e r r'
      no_user : r' ≡ reject_end_user i e r → Step i e r r'

    process-Step :
        (i : ℕ) (e : UsageEvent) (l : Loop redis)
        → Step i e l.result (process_event redis shards valid_orgs valid_eus i e l).result
    process-Step i e l = elim (Bool-cases (is_any e.org_id valid_orgs)) [
      | inr unknown ↦ no_org (unfold process_event in ground arith)
      | inl org ↦
          elim (Bool-cases (not (is_empty e.end_user_id) && not (is_any (pair_of e) valid_eus))) [
            | inl stranger ↦ no_user (unfold process_event in ground arith)
            | inr fine ↦
                let run : (process_event redis shards valid_orgs valid_eus i e l)
                    ≡ dedup redis shards e l =
                  unfold process_event in ground arith in
                elim (dedup-result e l) [
                  | inl q ↦ kept (org, ground arith) (ap (λ (m : Loop redis). m.result) run ∙ q)
                  | inr q ↦ doubled (ap (λ (m : Loop redis). m.result) run ∙ q)
                ]
          ]
    ]

    Step-IsCounted :
        (n i : ℕ) (e : UsageEvent) (r r' : BatchResult)
        → Step i e r r'
        → IsCounted n r
        → IsCounted (suc n) r'
    Step-IsCounted n i e r r' (kept known q) c = rw q (accept-IsCounted n r c e)
    Step-IsCounted n i e r r' (doubled q) c = rw q (duplicate-IsCounted n r c)
    Step-IsCounted n i e r r' (no_org q) c = rw q (unknown_org-IsCounted n r c i e)
    Step-IsCounted n i e r r' (no_user q) c = rw q (end_user-IsCounted n r c i e)

    process_from-IsCounted :
        (n i : ℕ) (es : List UsageEvent) (l : Loop redis)
        → IsCounted n l.result
        → IsCounted (n + length es) (process_from redis shards valid_orgs valid_eus i es l).result
    unfolding process_from
    process_from-IsCounted n i [] l c = omega (arith, c)
    process_from-IsCounted n i (e ∷ es) l c =
        let step = process-Step i e l in
        let l' = process_event redis shards valid_orgs valid_eus i e l in
        omega
          (arith, process_from-IsCounted (suc n) (suc i) es l' (Step-IsCounted n i e _ _ step c))

    -- The accepted events: those that were there, and some of `es`, in their order.
    record Grown (es : List UsageEvent) (r r' : BatchResult) : Type 0 where
      added : List UsageEvent
      grown : r'.accepted ≡ r.accepted ++ added
      picked : Sublistᴰ added es
      known : All Known added

    Step-Grown :
        (i : ℕ) (e : UsageEvent) (es : List UsageEvent) (r r1 r2 : BatchResult)
        → Step i e r r1
        → Grown es r1 r2
        → Grown (e ∷ es) r r2
    unfolding accept reject_duplicate reject_unknown_org reject_end_user
    Step-Grown i e es r r1 r2 (kept known q) g = record {
      added = e ∷ g.added;
      grown =
          g.grown
          ∙ ap (λ (t : BatchResult). t.accepted ++ g.added) q
          ∙ append_assoc r.accepted (e ∷ []) g.added;
      picked = Sublistᴰ.cons-cons refl g.picked;
      known = (known, g.known);
    }
    Step-Grown i e es r r1 r2 (doubled q) g = record {
      added = g.added;
      grown = g.grown ∙ ap (λ (t : BatchResult). t.accepted ++ g.added) q;
      picked = Sublistᴰ.cons g.picked;
      known = g.known;
    }
    Step-Grown i e es r r1 r2 (no_org q) g = record {
      added = g.added;
      grown = g.grown ∙ ap (λ (t : BatchResult). t.accepted ++ g.added) q;
      picked = Sublistᴰ.cons g.picked;
      known = g.known;
    }
    Step-Grown i e es r r1 r2 (no_user q) g = record {
      added = g.added;
      grown = g.grown ∙ ap (λ (t : BatchResult). t.accepted ++ g.added) q;
      picked = Sublistᴰ.cons g.picked;
      known = g.known;
    }

    process_from-Grown :
        (i : ℕ) (es : List UsageEvent) (l : Loop redis)
        → Grown es l.result (process_from redis shards valid_orgs valid_eus i es l).result
    unfolding process_from
    process_from-Grown i [] l = record {
      added = [];
      grown = sym (append-nil l.result.accepted);
      picked = Sublistᴰ.slnil;
      known = tt;
    }
    process_from-Grown i (e ∷ es) l =
        Step-Grown i e es _ _ _ (process-Step i e l) (process_from-Grown (suc i) es _)

    pub process_batch_events-IsCounted :
        (es : List UsageEvent) (s : redis.Store)
        → IsCounted (length es) (process_batch_events redis shards valid_orgs valid_eus es s).0
    unfolding process_batch_events
    process_batch_events-IsCounted es s =
        omega (arith, process_from-IsCounted 0 0 es (start redis shards s) (omega arith))

    -- The accepted events are a subsequence of the batch, and each one's organization and end user
    -- passed the existence checks.
    pub process_batch_events-accepted :
        (es : List UsageEvent) (s : redis.Store)
        → Sublistᴰ (process_batch_events redis shards valid_orgs valid_eus es s).0.accepted es
          × All Known (process_batch_events redis shards valid_orgs valid_eus es s).0.accepted
    unfolding process_batch_events
    process_batch_events-accepted es s =
        let g = process_from-Grown 0 es (start redis shards s) in rw g.grown (g.picked, g.known)
