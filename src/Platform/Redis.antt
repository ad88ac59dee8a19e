-- ===== src/Platform/Redis.antt =====
-- The commands of github.com/redis/go-redis/v9 that the engine issues, an interface over a state of
-- the server, and what Redis documents of them. A command whose result the engine drops returns
-- only the new state.
pub mod Memory
pub mod Filters
use quantumbilling.Common.{ℕ, ◌≤◌, ◌≡◌, ◌≢◌, ◌↔◌, Bool, true, false, Text, Option, none, some}

-- The result of a command, or a transport error.
pub data Reply {ℓ} (A : Type ℓ) : Type ℓ where
  reply : A → Reply A
  unavailable : Reply A

pub record Redis : Type 1 where
  pub Store : Type 0
  -- GET, where `redis.Nil` is `reply none`
  pub get : Text → Store → Reply (Option Text) × Store
  -- EXISTS of one key: how many of them there are
  pub exists : Text → Store → Reply ℕ × Store
  -- SET with a time to live in seconds, where 0 is none
  pub set : Text → Text → ℕ → Store → Store
  -- SETNX with a time to live in seconds: whether the key was set
  pub set_nx : Text → Text → ℕ → Store → Reply Bool × Store
  pub del : Text → Store → Store
  -- BF.RESERVE key error_rate capacity
  pub bf_reserve : Text → Store → Store
  -- BF.EXISTS: 1 if the item may have been added, 0 if it was not
  pub bf_exists : Text → Text → Store → Reply ℕ × Store
  pub bf_add : Text → Text → Store → Store

-- What a server that answers does to its keys. `held s k` is the value at a key that has not
-- expired. No other client writes and no key expires between the commands that a theorem speaks of.
pub record RedisLaws (redis : Redis) : Type 0 where
  pub held : redis.Store → Text → Option Text
  -- the server answers
  pub live : redis.Store → Bool
  pub get-eq : (k : Text) (s : redis.Store) → live s ≡ true → (redis.get k s).0 ≡ reply (held s k)
  pub held-get : (k j : Text) (s : redis.Store) → held (redis.get k s).1 j ≡ held s j
  pub live-get : (k : Text) (s : redis.Store) → live (redis.get k s).1 ≡ live s
  pub exists-reply :
      (k : Text) (s : redis.Store)
      → live s ≡ true
      → (n : ℕ) × ((redis.exists k s).0 ≡ reply n) × ((n ≡ 0) ↔ (held s k ≡ none))
  pub held-exists : (k j : Text) (s : redis.Store) → held (redis.exists k s).1 j ≡ held s j
  pub live-exists : (k : Text) (s : redis.Store) → live (redis.exists k s).1 ≡ live s
  pub held-set_self :
      (k v : Text) (ttl : ℕ) (s : redis.Store)
      → live s ≡ true
      → held (redis.set k v ttl s) k ≡ some v
  pub held-set_ne :
      (k j v : Text) (ttl : ℕ) (s : redis.Store) → k ≢ j → held (redis.set k v ttl s) j ≡ held s j
  pub live-set : (k v : Text) (ttl : ℕ) (s : redis.Store) → live (redis.set k v ttl s) ≡ live s
  pub set_nx_fresh :
      (k v : Text) (ttl : ℕ) (s : redis.Store)
      → live s ≡ true
      → held s k ≡ none
      → ((redis.set_nx k v ttl s).0 ≡ reply true) × (held (redis.set_nx k v ttl s).1 k ≡ some v)
  pub set_nx_taken :
      (k v w : Text) (ttl : ℕ) (s : redis.Store)
      → live s ≡ true
      → held s k ≡ some w
      → ((redis.set_nx k v ttl s).0 ≡ reply false) × (held (redis.set_nx k v ttl s).1 k ≡ some w)
  pub held-set_nx_ne :
      (k j v : Text) (ttl : ℕ) (s : redis.Store)
      → k ≢ j
      → held (redis.set_nx k v ttl s).1 j ≡ held s j
  pub live-set_nx :
      (k v : Text) (ttl : ℕ) (s : redis.Store) → live (redis.set_nx k v ttl s).1 ≡ live s
  pub held-del_self : (k : Text) (s : redis.Store) → live s ≡ true → held (redis.del k s) k ≡ none
  pub held-del_ne : (k j : Text) (s : redis.Store) → k ≢ j → held (redis.del k s) j ≡ held s j
  pub live-del : (k : Text) (s : redis.Store) → live (redis.del k s) ≡ live s
  -- a filter is a key of its own kind, and its commands leave the strings alone
  pub held-bf_reserve : (k j : Text) (s : redis.Store) → held (redis.bf_reserve k s) j ≡ held s j
  pub live-bf_reserve : (k : Text) (s : redis.Store) → live (redis.bf_reserve k s) ≡ live s
  pub held-bf_exists :
      (k x j : Text) (s : redis.Store) → held (redis.bf_exists k x s).1 j ≡ held s j
  pub bf_exists-le :
      (k x : Text) (s : redis.Store) (n : ℕ) → (redis.bf_exists k x s).0 ≡ reply n → n ≤ 1
  pub live-bf_exists : (k x : Text) (s : redis.Store) → live (redis.bf_exists k x s).1 ≡ live s
  pub held-bf_add : (k x j : Text) (s : redis.Store) → held (redis.bf_add k x s) j ≡ held s j
  pub live-bf_add : (k x : Text) (s : redis.Store) → live (redis.bf_add k x s) ≡ live s
  -- with no server every command that returns a result returns an error
  pub get_down : (k : Text) (s : redis.Store) → live s ≡ false → (redis.get k s).0 ≡ unavailable
  pub exists_down :
      (k : Text) (s : redis.Store) → live s ≡ false → (redis.exists k s).0 ≡ unavailable
  pub set_nx_down :
      (k v : Text) (ttl : ℕ) (s : redis.Store)
      → live s ≡ false
      → (redis.set_nx k v ttl s).0 ≡ unavailable
  pub bf_exists_down :
      (k x : Text) (s : redis.Store) → live s ≡ false → (redis.bf_exists k x s).0 ≡ unavailable
