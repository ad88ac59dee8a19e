-- ===== src/Batch/Bloom/Uses.antt =====
-- The in-process filter over a whole sequence of uses.
use quantumbilling.Common.{
  ℕ, ◌+◌, ◌*◌, ◌/◌, ◌<◌, ◌≡◌, List, [], ◌∷◌, Text, Bool, true, arith, inl, inr, Bool-cases,
}
use quantumbilling.Batch.Hash.{uint32_mod}
use quantumbilling.Batch.Bloom.{
  Bits, InProcessBloom, bloom_size, new_in_process_bloom, hash, position, test, set_bit, rounds,
  exists_and_add_loop, add_loop, exists_and_add, add,
}
use quantumbilling.Batch.Bloom.Laws.{
  Extends, Extends-refl, Extends-trans, Seen-Extends, add-Extends, add-Seen, exists_and_add-Extends,
  exists_and_add-present,
}

pub data Use : Type 0 where
  note : Text → Text → Use
  probe : Text → Text → Use

unfoldable pub use_one : InProcessBloom → Use → InProcessBloom
use_one b (note o e) = add o e b
use_one b (probe o e) = (exists_and_add o e b).1

unfoldable pub use_all : InProcessBloom → List Use → InProcessBloom
unfolding use_one
use_all b [] = b
use_all b (u ∷ us) = use_all (use_one b u) us

use_one-Extends : (b : InProcessBloom) (u : Use) → Extends b (use_one b u)
unfolding use_one
use_one-Extends b (note o e) = add-Extends o e b
use_one-Extends b (probe o e) = exists_and_add-Extends o e b

use_all-Extends : (b : InProcessBloom) (us : List Use) → Extends b (use_all b us)
unfolding use_all
use_all-Extends b [] = Extends-refl b
use_all-Extends b (u ∷ us) = Extends-trans (use_one-Extends b u) (use_all-Extends (use_one b u) us)

-- No false negatives: an event that was added is reported by every later `existsAndAdd`, whatever
-- was added or probed in between.
pub exists_after_add :
    (b : InProcessBloom) (o e : Text) (us : List Use)
    → (exists_and_add o e (use_all (add o e b) us)).0 ≡ true
exists_after_add b o e us =
    exists_and_add-present o e _
      (Seen-Extends o e (use_all-Extends (add o e b) us) (add-Seen o e b))

-- The set bits are among the first `shards * bloom_size` ones.
record IsLow (b : InProcessBloom) : Type 0 where
  low : (block bit : ℕ) → b.bits block bit ≡ true → block * 64 + bit < b.shards * bloom_size

module _ (shards : ℕ) (hs : ℕ × ℕ) (some_shard : 0 < shards)
    (fits : shards * bloom_size < uint32_mod) where
  abbrev Low : Bits → Type 0
  Low b = (block bit : ℕ) → b block bit ≡ true → block * 64 + bit < shards * bloom_size

  position-lt : (j : ℕ) → position shards hs j < shards * bloom_size
  unfolding position
  position-lt j = omega arith

  set_bit-Low : (b : Bits) (h : ℕ) → h < shards * bloom_size → Low b → Low (set_bit b h)
  unfolding set_bit
  set_bit-Low b h lt low block bit on = ground (arith, low block bit)

  add_loop-Low : (js : List ℕ) (b : Bits) → Low b → Low (add_loop shards hs js b)
  unfolding add_loop
  add_loop-Low [] b low = low
  add_loop-Low (j ∷ js) b low =
      add_loop-Low js _ (set_bit-Low b (position shards hs j) (position-lt j) low)

  exists_loop-Low :
      (js : List ℕ) (p : Bool) (b : Bits) → Low b → Low (exists_and_add_loop shards hs js p b).1
  unfolding exists_and_add_loop
  exists_loop-Low [] p b low = low
  exists_loop-Low (j ∷ js) p b low =
      exists_loop-Low js _ _ (elim (Bool-cases (test b (position shards hs j))) [
        | inl on ↦ rw on low
        | inr off ↦ rw off (set_bit-Low b (position shards hs j) (position-lt j) low)
      ])

module _ (b : InProcessBloom) (some_shard : 0 < b.shards)
    (fits : b.shards * bloom_size < uint32_mod) where
  use_one-IsLow : (u : Use) → IsLow b → IsLow (use_one b u)
  unfolding use_one add exists_and_add
  use_one-IsLow (note o e) l = record {
    low = add_loop-Low b.shards (hash o e) some_shard fits rounds b.bits l.low;
  }
  use_one-IsLow (probe o e) l = record {
    low = exists_loop-Low b.shards (hash o e) some_shard fits rounds true b.bits l.low;
  }

use_all-IsLow :
    (b : InProcessBloom) (us : List Use)
    → 0 < b.shards
    → b.shards * bloom_size < uint32_mod
    → IsLow b
    → IsLow (use_all b us)
unfolding use_all
use_all-IsLow b [] some_shard fits l = l
use_all-IsLow b (u ∷ us) some_shard fits l =
    let same = (use_one-Extends b u).shards in
    use_all-IsLow (use_one b u) us (rw (← same) some_shard) (rw (← same) fits)
      (use_one-IsLow b some_shard fits u l)

-- The filter uses one block in sixty-four: starting from an empty filter of `shards * bloom_size`
-- blocks, no sequence of uses sets a bit in block `shards * bloom_size / 64` or above.
pub use_all_low_blocks :
    (shards : ℕ) (us : List Use) (block bit : ℕ)
    → 0 < shards
    → shards * bloom_size < uint32_mod
    → (use_all (new_in_process_bloom shards) us).bits block bit ≡ true
    → block < shards * bloom_size / 64
unfolding new_in_process_bloom
use_all_low_blocks shards us block bit some_shard fits on =
    let b = new_in_process_bloom shards in
    let l = use_all-IsLow b us some_shard fits (record { low = λ x y h. cc }) in
    omega (arith, l.low block bit on, (use_all-Extends b us).shards)
