-- ===== src/Batch/Process/Claims.antt =====
-- The idempotency claims of a batch while Redis answers.
use quantumbilling.Common.{
  ℕ, zero, suc, ◌≤◌, ◌≡◌, ◌≢◌, ◌⊎◌, refl, List, [], ◌∷◌, Text, Bool, true, false, none, arith, All,
  All-append, Bool-cases, inl, inr, is_any, is_empty, not, ◌&&◌, if◌then◌else◌, ◌==◌,
}
use quantumbilling.Models.{UsageEvent, default_idempotency_ttl}
use quantumbilling.Platform.Redis.{Redis, RedisLaws, Reply, reply, unavailable}
use quantumbilling.Ingest.{idem_key}
use quantumbilling.Batch.Bloom.{exists_and_add}
use quantumbilling.Batch.Process.{
  accept, reject_duplicate, reject_unknown_org, reject_end_user, Loop, bf_key, reserve, set_idem,
  check_offline, check_seen, check_bloom, record_accepted, dedup, process_event, process_from,
  process_batch_events, start, pair_of,
}
use quantumbilling.Batch.Process.Counts.{dedup-result}
use quantumbilling.Batch.Process.Duplicates.{
  held-set_nx_self, asked, Keeps, Keeps-trans, Keeps-set_idem, Keeps-bf_add, Keeps-asked,
}

module _ (redis : Redis) (laws : RedisLaws redis) (shards : ℕ) where
  open laws use {held, live}

  abbrev pub Kept : redis.Store → redis.Store → Type 0
  Kept = Keeps redis laws shards

  Kept-refl : (s : redis.Store) → live s ≡ true → Kept s s
  Kept-refl s up = record { up = up; kept = λ k h. h }

  claimed_set_idem :
      (e : UsageEvent) (s : redis.Store)
      → live s ≡ true
      → held (set_idem redis shards e s).1 (idem_key e) ≢ none
  unfolding set_idem
  claimed_set_idem e s up = held-set_nx_self redis laws (idem_key e) default_idempotency_ttl s up

  -- After the filter's answer the event is claimed, or goes on with `exists` at 0.
  record Checked (e : UsageEvent) (s : redis.Store) (out : (Bool × ℕ) × Loop redis) : Type 0 where
    keeps : Kept s out.1.store
    safe : (held out.1.store (idem_key e) ≢ none) ⊎ ((out.0.0 ≡ true) × (out.0.1 ≡ 0))

  check_bloom-Checked :
      (r : Reply ℕ) (e : UsageEvent) (l : Loop redis)
      → live l.store ≡ true
      → ((n : ℕ) → r ≡ reply n → n ≤ 1)
      → Checked e l.store (check_bloom redis shards r e l)
  unfolding check_bloom check_seen
  check_bloom-Checked unavailable e l up small =
      elim (Bool-cases (exists_and_add e.org_id e.event_id l.bloom).0) [
        | inl seen ↦ record {
          keeps = rw (seen, check_offline) (Keeps-set_idem redis laws shards e l.store up);
          safe = inl (rw (seen, check_offline) (claimed_set_idem e l.store up));
        }
        | inr new ↦ record {
          keeps = rw (new, check_offline) (Kept-refl l.store up);
          safe = inr (rw (new, check_offline) (refl, refl));
        }
      ]
  check_bloom-Checked (reply zero) e l up small = record {
    keeps = Kept-refl l.store up;
    safe = inr (refl, refl);
  }
  check_bloom-Checked (reply (suc zero)) e l up small = record {
    keeps = Keeps-set_idem redis laws shards e l.store up;
    safe = inl (claimed_set_idem e l.store up);
  }
  check_bloom-Checked (reply (suc (suc n))) e l up small =
      absurd (omega (arith, small (suc (suc n)) refl))

  -- What a stage leaves: no claim is lost, and the event is claimed.
  pub record Claims (e : UsageEvent) (s t : redis.Store) : Type 0 where
    pub keeps : Kept s t
    pub claimed : held t (idem_key e) ≢ none

  held_before :
      (x : ℕ) (e : UsageEvent) (l : Loop redis)
      → (held l.store (idem_key e) ≢ none) ⊎ (x ≡ 0)
      → (x == 0) ≡ false
      → held l.store (idem_key e) ≢ none
  held_before x e l (inl h) some_left = h
  held_before x e l (inr none_left) some_left = absurd (ground arith)

  record_accepted-Claims :
      (x : ℕ) (e : UsageEvent) (l : Loop redis)
      → live l.store ≡ true
      → (held l.store (idem_key e) ≢ none) ⊎ (x ≡ 0)
      → Claims e l.store (record_accepted redis shards x e l).store
  unfolding record_accepted
  record_accepted-Claims x e l up safe =
      let added = Keeps-bf_add redis laws shards e l.store up in
      elim (Bool-cases (x == 0)) [
        | inl none_left ↦ record {
          keeps =
              rw (none_left, record_accepted)
                (Keeps-trans redis laws shards added
                  (Keeps-set_idem redis laws shards e _ added.up));
          claimed = rw (none_left, record_accepted) (claimed_set_idem e _ added.up);
        }
        | inr some_left ↦ record {
          keeps = rw (some_left, record_accepted) added;
          claimed =
              rw (some_left, record_accepted)
                (added.kept (idem_key e) (held_before x e l safe some_left));
        }
      ]

  Claims-trans : {s t u : redis.Store} (e : UsageEvent) → Kept s t → Claims e t u → Claims e s u
  Claims-trans e st tu = record {
    keeps = Keeps-trans redis laws shards st tu.keeps;
    claimed = tu.claimed;
  }

  counted :
      (e : UsageEvent) (l : Loop redis) (r : Reply ℕ)
      → Checked e l.store (check_bloom redis shards r e l)
      → (held (check_bloom redis shards r e l).1.store (idem_key e) ≢ none)
        ⊎ ((check_bloom redis shards r e l).0.1 ≡ 0)
  counted e l r c = elim c.safe [ inl h ↦ inl h | inr (go_on, none_left) ↦ inr none_left ]

  refused :
      (e : UsageEvent) (l : Loop redis) (r : Reply ℕ)
      → Checked e l.store (check_bloom redis shards r e l)
      → (check_bloom redis shards r e l).0.0 ≡ false
      → held (check_bloom redis shards r e l).1.store (idem_key e) ≢ none
  refused e l r c stop = elim c.safe [ inl h ↦ h | inr (go_on, none_left) ↦ cc ]

  -- Behind the filters every event ends up claimed, whether it is accepted or a duplicate.
  pub dedup-Claims :
      (e : UsageEvent) (l : Loop redis)
      → live l.store ≡ true
      → Claims e l.store (dedup redis shards e l).store
  unfolding dedup
  dedup-Claims e l up =
      let first = Keeps-asked redis laws shards e l up in
      let l2 : Loop redis = record (reserve redis shards e l) {
        store = (asked redis laws shards e l).1;
      } in
      let r = (asked redis laws shards e l).0 in
      let c =
        check_bloom-Checked r e l2 first.up
          (laws.bf_exists-le (bf_key shards e) e.event_id (reserve redis shards e l).store) in
      let both = Keeps-trans redis laws shards first c.keeps in
      elim (Bool-cases (check_bloom redis shards r e l2).0.0) [
        | inl go_on ↦
            rw (go_on, dedup)
              (Claims-trans e both (
                record_accepted-Claims (check_bloom redis shards r e l2).0.1 e
                  (check_bloom redis shards r e l2).1 c.keeps.up (counted e l2 r c)))
        | inr stop ↦ rw (stop, dedup) (record { keeps = both; claimed = refused e l2 r c stop })
      ]

  -- The server answers, and the accepted events are claimed.
  record IsClaimed (l : Loop redis) : Type 0 where
    up : live l.store ≡ true
    claimed : All (λ a. held l.store (idem_key a) ≢ none) l.result.accepted

  pub All-Kept :
      {s t : redis.Store} (es : List UsageEvent)
      → Kept s t
      → All (λ a. held s (idem_key a) ≢ none) es
      → All (λ a. held t (idem_key a) ≢ none) es
  All-Kept [] k h = tt
  All-Kept (a ∷ es) k h = (k.kept (idem_key a) h.0, All-Kept es k h.1)

  dedup-IsClaimed :
      (e : UsageEvent) (l : Loop redis) → IsClaimed l → IsClaimed (dedup redis shards e l)
  unfolding accept reject_duplicate
  dedup-IsClaimed e l c =
      let out = dedup-Claims e l c.up in
      let before = All-Kept l.result.accepted out.keeps c.claimed in
      elim (dedup-result redis shards e l) [
        | inl q ↦ record {
          up = out.keeps.up;
          claimed = rw q (All-append _ l.result.accepted (e ∷ []) before (out.claimed, tt));
        }
        | inr q ↦ record { up = out.keeps.up; claimed = rw q before }
      ]

  module _ (valid_orgs valid_eus : List Text) where
    process-IsClaimed :
        (i : ℕ) (e : UsageEvent) (l : Loop redis)
        → IsClaimed l
        → IsClaimed (process_event redis shards valid_orgs valid_eus i e l)
    unfolding process_event
    process-IsClaimed i e l c =
        go (not (is_any e.org_id valid_orgs))
          (not (is_empty e.end_user_id) && not (is_any (pair_of e) valid_eus))
      where
        go :
            (b d : Bool)
            → IsClaimed (
                if b
                then record l { result = reject_unknown_org i e l.result }
                else if d
                then record l { result = reject_end_user i e l.result }
                else dedup redis shards e l)
        go true d = record { up = c.up; claimed = c.claimed }
        go false true = record { up = c.up; claimed = c.claimed }
        go false false = dedup-IsClaimed e l c

    process_from-IsClaimed :
        (i : ℕ) (es : List UsageEvent) (l : Loop redis)
        → IsClaimed l
        → IsClaimed (process_from redis shards valid_orgs valid_eus i es l)
    unfolding process_from
    process_from-IsClaimed i [] l c = c
    process_from-IsClaimed i (e ∷ es) l c =
        process_from-IsClaimed (suc i) es _ (process-IsClaimed i e l c)

    -- While Redis answers, the idempotency key of every event that a batch accepts is held when the
    -- batch is done.
    pub process_batch_events-claimed :
        (es : List UsageEvent) (s : redis.Store)
        → live s ≡ true
        → All
            (λ a.
              held (process_batch_events redis shards valid_orgs valid_eus es s).1 (idem_key a)
              ≢ none)
            (process_batch_events redis shards valid_orgs valid_eus es s).0.accepted
    unfolding process_batch_events
    process_batch_events-claimed es s up =
        (process_from-IsClaimed 0 es (start redis shards s)
          (record { up = up; claimed = tt })).claimed
