-- ===== src/Batch/Process/Duplicates.antt =====
-- What the batch handler does about duplicates while Redis answers.
use quantumbilling.Common.{
  ℕ, ◌≡◌, ◌≢◌, ◌∙◌, Text, text, text_eq, text_eq_iff, Bool, true, false, Option, none, some, arith,
  ◌==◌, ◌&&◌, ==_iff, ap, Bool-cases, Option-cases, inl, inr, if◌then◌else◌,
}
use quantumbilling.Models.{UsageEvent, default_idempotency_ttl}
use quantumbilling.Platform.Redis.{Redis, RedisLaws, Reply, reply}
use quantumbilling.Ingest.{idem_key}
use quantumbilling.Batch.Process.{
  accept, reject_duplicate, Loop, bf_key, reserve, set_idem, check_bloom, record_accepted, dedup,
}

-- Whether a key is held.
abbrev pub is_held : Option Text → Bool
is_held none = false
is_held (some v) = true

module _ (redis : Redis) (laws : RedisLaws redis) where
  open laws use {held, live}

  -- SETNX loses no claim, and claims its own key.
  pub held-set_nx :
      (k j : Text) (ttl : ℕ) (s : redis.Store)
      → live s ≡ true
      → held s j ≢ none
      → held (redis.set_nx k (text "1") ttl s).1 j ≢ none
  held-set_nx k j ttl s up kept = elim (Bool-cases (text_eq k j)) [
    | inl same ↦ elim (Option-cases (held s k)) [
      | inl free ↦ ground (arith, text_eq_iff k j)
      | inr (v, taken) ↦
          let (r, still) = laws.set_nx_taken k (text "1") v ttl s up taken in
          ground (arith, text_eq_iff k j, still)
    ]
    | inr other ↦ ground (arith, text_eq_iff k j, laws.held-set_nx_ne k j (text "1") ttl s)
  ]

  pub held-set_nx_self :
      (k : Text) (ttl : ℕ) (s : redis.Store)
      → live s ≡ true
      → held (redis.set_nx k (text "1") ttl s).1 k ≢ none
  held-set_nx_self k ttl s up = elim (Option-cases (held s k)) [
    | inl free ↦ let (r, now) = laws.set_nx_fresh k (text "1") ttl s up free in ground (arith, now)
    | inr (v, taken) ↦
        let (r, still) = laws.set_nx_taken k (text "1") v ttl s up taken in ground (arith, still)
  ]

  module _ (shards : ℕ) where
    -- The state at which the filter is asked.
    abbrev pub asked : UsageEvent → Loop redis → Reply ℕ × redis.Store
    asked e l = redis.bf_exists (bf_key shards e) e.event_id (reserve redis shards e l).store

    reserve-result :
        (e : UsageEvent) (l : Loop redis) → (reserve redis shards e l).result ≡ l.result
    unfolding reserve
    reserve-result e l = ground arith

    live-reserve :
        (e : UsageEvent) (l : Loop redis) → live (reserve redis shards e l).store ≡ live l.store
    unfolding reserve
    live-reserve e l = ground (arith, laws.live-bf_reserve (bf_key shards e) l.store)

    held-reserve :
        (e : UsageEvent) (l : Loop redis) (k : Text)
        → held (reserve redis shards e l).store k ≡ held l.store k
    unfolding reserve
    held-reserve e l k = ground (arith, laws.held-bf_reserve (bf_key shards e) k l.store)

    dedup_unseen :
        (n : ℕ) (e : UsageEvent) (l : Loop redis)
        → (asked e l).0 ≡ reply n
        → (n == 1) ≡ false
        → (dedup redis shards e l).result ≡ accept e l.result
    unfolding dedup check_bloom record_accepted
    dedup_unseen n e l q not_one = ground (arith, reserve-result e l, not_one)

    -- Where the filter may have seen it, the claim decides: an event whose key is held is a
    -- duplicate, and one whose key is free is accepted.
    pub dedup_seen :
        (e : UsageEvent) (l : Loop redis)
        → live l.store ≡ true
        → (asked e l).0 ≡ reply 1
        → (dedup redis shards e l).result ≡ (
            if is_held (held l.store (idem_key e))
            then reject_duplicate l.result
            else accept e l.result)
    unfolding dedup check_bloom record_accepted
    dedup_seen e l up q =
        let k = idem_key e in
        let s = (asked e l).1 in
        let up' : live s ≡ true = laws.live-bf_exists _ _ _ ∙ live-reserve e l ∙ up in
        let same : held s k ≡ held l.store k = laws.held-bf_exists _ _ k _ ∙ held-reserve e l k in
        elim (Option-cases (held l.store k)) [
          | inl free ↦
              let (r, now) =
                laws.set_nx_fresh k (text "1") default_idempotency_ttl s up' (same ∙ free) in
              ground (arith, q, r, free, reserve-result e l)
          | inr (v, taken) ↦
              let (r, still) =
                laws.set_nx_taken k (text "1") v default_idempotency_ttl s up' (same ∙ taken) in
              ground (arith, q, r, taken, reserve-result e l)
        ]

    -- With a server that answers, whatever the filter replies: an event is a duplicate exactly if the
    -- filter may have seen it and its idempotency key is held, and it is accepted otherwise. So an
    -- event whose key is held, claimed by the endpoint of single events, say, which adds nothing to
    -- the filter, is accepted again where the filter has not seen it.
    pub dedup_online :
        (n : ℕ) (e : UsageEvent) (l : Loop redis)
        → live l.store ≡ true
        → (asked e l).0 ≡ reply n
        → (dedup redis shards e l).result ≡ (
            if (n == 1) && is_held (held l.store (idem_key e))
            then reject_duplicate l.result
            else accept e l.result)
    dedup_online n e l up q = elim (Bool-cases (n == 1)) [
      | inl one ↦
          ground (arith, one, dedup_seen e l up (q ∙ ap (λ k. reply k) ((==_iff n 1).0 one)))
      | inr other ↦ ground (arith, other, dedup_unseen n e l q other)
    ]

    -- What the states on the way keep: the server answers, and no claim is lost.
    pub record Keeps (s t : redis.Store) : Type 0 where
      pub up : live t ≡ true
      pub kept : (k : Text) → held s k ≢ none → held t k ≢ none

    pub Keeps-trans : {s t u : redis.Store} → Keeps s t → Keeps t u → Keeps s u
    Keeps-trans st tu = record { up = tu.up; kept = λ k h. tu.kept k (st.kept k h) }

    pub Keeps-set_idem :
        (e : UsageEvent) (s : redis.Store) → live s ≡ true → Keeps s (set_idem redis shards e s).1
    unfolding set_idem
    Keeps-set_idem e s up = record {
      up = laws.live-set_nx _ _ _ _ ∙ up;
      kept = λ k h. held-set_nx (idem_key e) k default_idempotency_ttl s up h;
    }

    pub Keeps-bf_add :
        (e : UsageEvent) (s : redis.Store)
        → live s ≡ true
        → Keeps s (redis.bf_add (bf_key shards e) e.event_id s)
    Keeps-bf_add e s up = record {
      up = laws.live-bf_add _ _ _ ∙ up;
      kept = λ k h. rw (laws.held-bf_add (bf_key shards e) e.event_id k s) h;
    }

    pub Keeps-asked :
        (e : UsageEvent) (l : Loop redis) → live l.store ≡ true → Keeps l.store (asked e l).1
    Keeps-asked e l up = record {
      up = laws.live-bf_exists _ _ _ ∙ live-reserve e l ∙ up;
      kept = λ k h.
          rw
            (laws.held-bf_exists (bf_key shards e) e.event_id k (reserve redis shards e l).store
              ∙ held-reserve e l k)
            h;
    }
