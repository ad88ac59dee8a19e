-- ===== src/Platform/Redis/Memory.antt =====
-- A server in memory, at which the hypotheses on Redis are met: the strings and the items of the
-- filters in lists, a switch for whether the server answers, and one for its filter module.
use quantumbilling.Common.{
  ℕ, ◌≤◌, ◌≡◌, ◌≢◌, ◌↔◌, refl, ap, Bool, true, false, Text, text_eq, text_eq_iff, Option, none,
  some, List, [], ◌∷◌, ◌&&◌, ◌||◌, arith, if◌then◌else◌,
}
use quantumbilling.Platform.Redis.{Redis, RedisLaws, Reply, reply, unavailable}

pub record Memory : Type 0 where
  pub strings : List (Text × Text)
  pub filters : List (Text × Text)
  pub up : Bool
  pub stack : Bool

unfoldable pub lookup : Text → List (Text × Text) → Option Text
lookup k [] = none
lookup k ((j, v) ∷ m) = if text_eq j k then some v else lookup k m

unfoldable pub without : Text → List (Text × Text) → List (Text × Text)
without k [] = []
without k ((j, v) ∷ m) = let rest = without k m in if text_eq j k then rest else (j, v) ∷ rest

unfoldable pub has_item : Text → Text → List (Text × Text) → Bool
has_item k x [] = false
has_item k x ((j, y) ∷ m) = (text_eq j k && text_eq y x) || has_item k x m

lookup-without_self : (k : Text) (m : List (Text × Text)) → lookup k (without k m) ≡ none
unfolding lookup without
lookup-without_self k [] = refl
lookup-without_self k ((j, v) ∷ m) = ground (arith, lookup-without_self k m)

lookup-without_ne :
    (k j : Text) (m : List (Text × Text)) → k ≢ j → lookup j (without k m) ≡ lookup j m
unfolding lookup without
lookup-without_ne k j [] h = refl
lookup-without_ne k j ((i, v) ∷ m) h =
    ground (arith, lookup-without_ne k j m h, text_eq_iff i k, text_eq_iff i j)

-- how many keys are there
abbrev present : Option Text → ℕ
present none = 0
present (some v) = 1

abbrev set_nx_at : Text → Text → Memory → Option Text → Reply Bool × Memory
set_nx_at k v s none = (reply true, record s { strings = (k, v) ∷ s.strings })
set_nx_at k v s (some w) = (reply false, s)

unfoldable pub read : Text → Memory → Reply (Option Text) × Memory
unfolding lookup
read k s = (if s.up then reply (lookup k s.strings) else unavailable, s)

unfoldable pub count : Text → Memory → Reply ℕ × Memory
unfolding lookup
count k s = (if s.up then reply (present (lookup k s.strings)) else unavailable, s)

unfoldable pub write : Text → Text → ℕ → Memory → Memory
write k v ttl s = if s.up then record s { strings = (k, v) ∷ s.strings } else s

unfoldable pub claim : Text → Text → ℕ → Memory → Reply Bool × Memory
unfolding lookup
claim k v ttl s = if s.up then set_nx_at k v s (lookup k s.strings) else (unavailable, s)

unfoldable pub erase : Text → Memory → Memory
unfolding without
erase k s = if s.up then record s { strings = without k s.strings } else s

unfoldable pub may_have : Text → Text → Memory → Reply ℕ × Memory
unfolding has_item
may_have k x s =
    (if s.up && s.stack then reply (if has_item k x s.filters then 1 else 0) else unavailable, s)

unfoldable pub note : Text → Text → Memory → Memory
note k x s = if s.up && s.stack then record s { filters = (k, x) ∷ s.filters } else s

abbrev pub memory : Redis
memory = record {
  Store = Memory;
  get = read;
  exists = count;
  set = write;
  set_nx = claim;
  del = erase;
  bf_reserve = λ k s. s;
  bf_exists = may_have;
  bf_add = note;
}

present_iff : (o : Option Text) → (present o ≡ 0) ↔ (o ≡ none)
present_iff none = (λ h. refl, λ h. refl)
present_iff (some v) = ground arith

module _ (k v : Text) (ttl : ℕ) (s : Memory) where
  pub claim_fresh :
      s.up ≡ true
      → lookup k s.strings ≡ none
      → ((claim k v ttl s).0 ≡ reply true) × (lookup k (claim k v ttl s).1.strings ≡ some v)
  unfolding claim
  claim_fresh h e = ground (arith, text_eq_iff k k)

  pub claim_taken :
      (w : Text)
      → s.up ≡ true
      → lookup k s.strings ≡ some w
      → ((claim k v ttl s).0 ≡ reply false) × (lookup k (claim k v ttl s).1.strings ≡ some w)
  unfolding claim
  claim_taken w h e = ground arith

  pub lookup-claim_ne :
      (j : Text) → k ≢ j → lookup j (claim k v ttl s).1.strings ≡ lookup j s.strings
  unfolding claim
  lookup-claim_ne j h = ground (arith, text_eq_iff k j)

  pub up-claim : (claim k v ttl s).1.up ≡ s.up
  unfolding claim
  up-claim = ground arith

  pub claim_down : s.up ≡ false → (claim k v ttl s).0 ≡ unavailable
  unfolding claim
  claim_down h = ground arith

  pub lookup-write_self : s.up ≡ true → lookup k (write k v ttl s).strings ≡ some v
  unfolding write lookup
  lookup-write_self h = ground (arith, text_eq_iff k k)

  pub lookup-write_ne : (j : Text) → k ≢ j → lookup j (write k v ttl s).strings ≡ lookup j s.strings
  unfolding write lookup
  lookup-write_ne j h = ground (arith, text_eq_iff k j)

  pub up-write : (write k v ttl s).up ≡ s.up
  unfolding write
  up-write = ground arith

module _ (k : Text) (s : Memory) where
  pub lookup-erase_self : s.up ≡ true → lookup k (erase k s).strings ≡ none
  unfolding erase
  lookup-erase_self h = rw h (lookup-without_self k s.strings)

  pub lookup-erase_ne : (j : Text) → k ≢ j → lookup j (erase k s).strings ≡ lookup j s.strings
  unfolding erase
  lookup-erase_ne j h = ground (arith, lookup-without_ne k j s.strings h)

  pub up-erase : (erase k s).up ≡ s.up
  unfolding erase
  up-erase = ground arith

  pub strings-note : (x : Text) → (note k x s).strings ≡ s.strings
  unfolding note
  strings-note x = ground arith

  pub up-note : (x : Text) → (note k x s).up ≡ s.up
  unfolding note
  up-note x = ground arith

  pub count-reply :
      s.up ≡ true → (n : ℕ) × ((count k s).0 ≡ reply n) × ((n ≡ 0) ↔ (lookup k s.strings ≡ none))
  unfolding count
  count-reply h = (present (lookup k s.strings), rw h, present_iff (lookup k s.strings))

  pub read-eq : s.up ≡ true → (read k s).0 ≡ reply (lookup k s.strings)
  unfolding read
  read-eq h = rw h

  pub state-read : (read k s).1 ≡ s
  unfolding read
  state-read = refl

  pub read_down : s.up ≡ false → (read k s).0 ≡ unavailable
  unfolding read
  read_down h = rw h

  pub state-count : (count k s).1 ≡ s
  unfolding count
  state-count = refl

  pub count_down : s.up ≡ false → (count k s).0 ≡ unavailable
  unfolding count
  count_down h = rw h

  pub state-may_have : (x : Text) → (may_have k x s).1 ≡ s
  unfolding may_have
  state-may_have x = refl

  pub may_have-le : (x : Text) (n : ℕ) → (may_have k x s).0 ≡ reply n → n ≤ 1
  unfolding may_have
  may_have-le x n e = ground arith

  pub may_have_down : (x : Text) → s.up ≡ false → (may_have k x s).0 ≡ unavailable
  unfolding may_have
  may_have_down x h = rw h

-- The hypotheses on Redis hold of this server.
abbrev pub memory-RedisLaws : RedisLaws memory
memory-RedisLaws = record {
  held = λ s k. lookup k s.strings;
  live = λ s. s.up;
  get-eq = read-eq;
  held-get = λ k j s. ap (λ (t : Memory). lookup j t.strings) (state-read k s);
  live-get = λ k s. ap (λ (t : Memory). t.up) (state-read k s);
  exists-reply = count-reply;
  held-exists = λ k j s. ap (λ (t : Memory). lookup j t.strings) (state-count k s);
  live-exists = λ k s. ap (λ (t : Memory). t.up) (state-count k s);
  held-set_self = lookup-write_self;
  held-set_ne = λ k j v ttl s. lookup-write_ne k v ttl s j;
  live-set = up-write;
  set_nx_fresh = claim_fresh;
  set_nx_taken = λ k v w ttl s. claim_taken k v ttl s w;
  held-set_nx_ne = λ k j v ttl s. lookup-claim_ne k v ttl s j;
  live-set_nx = up-claim;
  held-del_self = lookup-erase_self;
  held-del_ne = λ k j s. lookup-erase_ne k s j;
  live-del = up-erase;
  held-bf_reserve = λ k j s. refl;
  live-bf_reserve = λ k s. refl;
  held-bf_exists = λ k x j s. ap (λ (t : Memory). lookup j t.strings) (state-may_have k s x);
  bf_exists-le = λ k x s. may_have-le k s x;
  live-bf_exists = λ k x s. ap (λ (t : Memory). t.up) (state-may_have k s x);
  held-bf_add = λ k x j s. ap (lookup j) (strings-note k s x);
  live-bf_add = λ k x s. up-note k s x;
  get_down = read_down;
  exists_down = count_down;
  set_nx_down = claim_down;
  bf_exists_down = λ k x s. may_have_down k s x;
}
