-- ===== src/Platform/Redis/Filters.antt =====
-- What RedisBloom documents of BF.ADD and BF.EXISTS: a filter has no false negatives, and nothing
-- that the batch handler sends takes an item out of it.
use quantumbilling.Common.{ℕ, ◌≡◌, Bool, true, Text, ◌&&◌, arith, text_eq_refl}
use quantumbilling.Platform.Redis.{Redis, RedisLaws, reply}
use quantumbilling.Platform.Redis.Memory.{
  Memory, memory, memory-RedisLaws, has_item, note, may_have, claim,
}

-- `serving`: the server answers and has the filter module. `has s k x`: `x` was added to the filter
-- at `k`.
pub record Filter (redis : Redis) : Type 0 where
  pub serving : redis.Store → Bool
  pub has : redis.Store → Text → Text → Bool

-- From one state to a later one, the server goes on serving and its filters only grow.
pub record Grows (redis : Redis) (filter : Filter redis) (s t : redis.Store) : Type 0 where
  pub serves : filter.serving s ≡ true → filter.serving t ≡ true
  pub grown : (k x : Text) → filter.has s k x ≡ true → filter.has t k x ≡ true

pub record FilterLaws (redis : Redis) (laws : RedisLaws redis) : Type 0 where
  pub filter : Filter redis
  pub serving-live : (s : redis.Store) → filter.serving s ≡ true → laws.live s ≡ true
  pub bf_exists_has :
      (k x : Text) (s : redis.Store)
      → filter.serving s ≡ true
      → filter.has s k x ≡ true
      → (redis.bf_exists k x s).0 ≡ reply 1
  pub has-bf_add :
      (k x : Text) (s : redis.Store)
      → filter.serving s ≡ true
      → filter.has (redis.bf_add k x s) k x ≡ true
  pub Grows-bf_add : (k x : Text) (s : redis.Store) → Grows redis filter s (redis.bf_add k x s)
  pub Grows-bf_exists :
      (k x : Text) (s : redis.Store) → Grows redis filter s (redis.bf_exists k x s).1
  -- an existing filter is not reserved again
  pub Grows-bf_reserve : (k : Text) (s : redis.Store) → Grows redis filter s (redis.bf_reserve k s)
  pub Grows-set_nx :
      (k v : Text) (ttl : ℕ) (s : redis.Store) → Grows redis filter s (redis.set_nx k v ttl s).1

-- The server in memory has these filters.
abbrev pub memory_filter : Filter memory
memory_filter = record { serving = λ s. s.up && s.stack; has = λ s k x. has_item k x s.filters }

pub has-note :
    (k x : Text) (s : Memory) → s.up && s.stack ≡ true → has_item k x (note k x s).filters ≡ true
unfolding note has_item
has-note k x s up = ground (arith, text_eq_refl k, text_eq_refl x)

pub note-Grows : (k x : Text) (s : Memory) → Grows memory memory_filter s (note k x s)
unfolding note has_item
note-Grows k x s = record { serves = λ up. ground arith; grown = λ j y in_s. ground arith }

pub claim-Grows :
    (k v : Text) (ttl : ℕ) (s : Memory) → Grows memory memory_filter s (claim k v ttl s).1
unfolding claim
claim-Grows k v ttl s = record { serves = λ up. ground arith; grown = λ j y in_s. ground arith }

pub may_have_in :
    (k x : Text) (s : Memory)
    → s.up && s.stack ≡ true
    → has_item k x s.filters ≡ true
    → (may_have k x s).0 ≡ reply 1
unfolding may_have
may_have_in k x s up in_s = ground arith

abbrev pub same-Grows : (s : Memory) → Grows memory memory_filter s s
same-Grows s = record { serves = λ up. up; grown = λ j y in_s. in_s }

pub may_have-Grows : (k x : Text) (s : Memory) → Grows memory memory_filter s (may_have k x s).1
unfolding may_have
may_have-Grows k x s = same-Grows s

pub up-serving : (s : Memory) → s.up && s.stack ≡ true → s.up ≡ true
up-serving s h = ground arith

abbrev pub memory-FilterLaws : FilterLaws memory memory-RedisLaws
memory-FilterLaws = record {
  filter = memory_filter;
  serving-live = up-serving;
  bf_exists_has = may_have_in;
  has-bf_add = has-note;
  Grows-bf_add = note-Grows;
  Grows-bf_exists = may_have-Grows;
  Grows-bf_reserve = λ k s. same-Grows s;
  Grows-set_nx = claim-Grows;
}
