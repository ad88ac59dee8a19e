-- ===== src/Batch/Process/Growth.antt =====
-- The filters of RedisBloom during a batch: the loop only adds to them, and adds what it accepts.
use quantumbilling.Common.{
  ℕ, zero, suc, ◌≡◌, ◌⊎◌, ◌∙◌, ap, Bool, true, false, arith, Bool-cases, inl, inr, is_any, ◌==◌,
}
use quantumbilling.Models.{UsageEvent}
use quantumbilling.Platform.Redis.{Redis, RedisLaws, Reply, reply, unavailable}
use quantumbilling.Platform.Redis.Filters.{Grows, FilterLaws}
use quantumbilling.Batch.Bloom.{exists_and_add}
use quantumbilling.Batch.Process.{
  accept, reject_duplicate, Loop, bf_key, reserve, set_idem, check_offline, check_seen, check_bloom,
  record_accepted, dedup,
}
use quantumbilling.Batch.Process.Counts.{check_bloom-result, reserve-result, record_accepted-result}
use quantumbilling.Batch.Process.Duplicates.{asked}

module _ (redis : Redis) (laws : RedisLaws redis) (filters : FilterLaws redis laws)
    (shards : ℕ) where
  open laws use {held, live}
  open filters use {filter}

  abbrev pub serving : redis.Store → Bool
  serving = filter.serving

  abbrev pub Grown : redis.Store → redis.Store → Type 0
  Grown = Grows redis filter

  Grown-trans : {s t u : redis.Store} → Grown s t → Grown t u → Grown s u
  Grown-trans a b = record {
    serves = λ up. b.serves (a.serves up);
    grown = λ k x h. b.grown k x (a.grown k x h);
  }

  Grown-refl : (s : redis.Store) → Grown s s
  Grown-refl s = record { serves = λ up. up; grown = λ k x h. h }

  Grown-set_idem : (e : UsageEvent) (s : redis.Store) → Grown s (set_idem redis shards e s).1
  unfolding set_idem
  Grown-set_idem e s = filters.Grows-set_nx _ _ _ s

  pub Grown-reserve :
      (e : UsageEvent) (l : Loop redis) → Grown l.store (reserve redis shards e l).store
  unfolding reserve
  Grown-reserve e l = elim (Bool-cases (is_any (bf_key shards e) l.reserved)) [
    | inl p ↦ rw (p, reserve) (Grown-refl l.store)
    | inr p ↦ rw (p, reserve) (filters.Grows-bf_reserve _ l.store)
  ]

  Grown-check_bloom :
      (r : Reply ℕ) (e : UsageEvent) (l : Loop redis)
      → Grown l.store (check_bloom redis shards r e l).1.store
  unfolding check_bloom check_seen
  Grown-check_bloom unavailable e l =
      elim (Bool-cases (exists_and_add e.org_id e.event_id l.bloom).0) [
        | inl seen ↦ rw (seen, check_offline) (Grown-set_idem e l.store)
        | inr new ↦ rw (new, check_offline) (Grown-refl l.store)
      ]
  Grown-check_bloom (reply zero) e l = Grown-refl l.store
  Grown-check_bloom (reply (suc zero)) e l = Grown-set_idem e l.store
  Grown-check_bloom (reply (suc (suc n))) e l =
      let other : (suc (suc n) == 1) ≡ false = ground arith in
      rw (other, check_bloom) (Grown-refl l.store)

  -- What an accepted event leaves: it is in its filter.
  record Added (e : UsageEvent) (s t : redis.Store) : Type 0 where
    grows : Grown s t
    added : serving s ≡ true → filter.has t (bf_key shards e) e.event_id ≡ true

  record_accepted-Added :
      (x : ℕ) (e : UsageEvent) (l : Loop redis)
      → Added e l.store (record_accepted redis shards x e l).store
  unfolding record_accepted
  record_accepted-Added x e l =
      let k = bf_key shards e in
      let s = redis.bf_add k e.event_id l.store in
      let grows = filters.Grows-bf_add k e.event_id l.store in
      elim (Bool-cases (x == 0)) [
        | inl p ↦
            rw (p, record_accepted)
              (record {
                grows = Grown-trans grows (Grown-set_idem e s);
                added = λ up.
                    (Grown-set_idem e s).grown k e.event_id
                      (filters.has-bf_add k e.event_id l.store up);
              })
        | inr p ↦
            rw (p, record_accepted)
              (record { grows = grows; added = filters.has-bf_add k e.event_id l.store })
      ]

  pub Grown-dedup : (e : UsageEvent) (l : Loop redis) → Grown l.store (dedup redis shards e l).store
  unfolding dedup
  Grown-dedup e l =
      let l1 = reserve redis shards e l in
      let s = (asked redis laws shards e l).1 in
      let r = (asked redis laws shards e l).0 in
      let l2 = record l1 { store = s } in
      let before = Grown-trans (Grown-reserve e l) (
        Grown-trans (filters.Grows-bf_exists (bf_key shards e) e.event_id l1.store)
          (Grown-check_bloom r e l2)) in
      elim (Bool-cases (check_bloom redis shards r e l2).0.0) [
        | inl go_on ↦ rw (go_on, dedup) (Grown-trans before (record_accepted-Added _ e _).grows)
        | inr stop ↦ rw (stop, dedup) before
      ]

  -- An event that is not a duplicate is accepted and added to its filter.
  pub dedup-Added :
      (e : UsageEvent) (l : Loop redis)
      → serving l.store ≡ true
      → (((dedup redis shards e l).result ≡ accept e l.result)
          × (filter.has (dedup redis shards e l).store (bf_key shards e) e.event_id ≡ true))
        ⊎ ((dedup redis shards e l).result ≡ reject_duplicate l.result)
  unfolding dedup
  dedup-Added e l up =
      let l1 = reserve redis shards e l in
      let out = asked redis laws shards e l in
      let l2 = record l1 { store = out.1 } in
      let checked = check_bloom redis shards out.0 e l2 in
      let same : checked.1.result ≡ l.result =
        check_bloom-result redis shards out.0 e l2 ∙ reserve-result redis shards e l in
      let before = Grown-trans (Grown-reserve e l) (
        Grown-trans (filters.Grows-bf_exists (bf_key shards e) e.event_id l1.store)
          (Grown-check_bloom out.0 e l2)) in
      elim (Bool-cases checked.0.0) [
        | inl go_on ↦ inl (
          rw (go_on, dedup)
              (record_accepted-result redis shards checked.0.1 e checked.1 ∙ ap (accept e) same),
          rw (go_on, dedup)
              ((record_accepted-Added checked.0.1 e checked.1).added (before.serves up)),
        )
        | inr stop ↦ inr (rw (stop, dedup) (ap reject_duplicate same))
      ]
