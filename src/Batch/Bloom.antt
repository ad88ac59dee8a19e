-- ===== src/Batch/Bloom.antt =====
-- `inProcessBloom` of engine/internal/handler/batch_handler.go. A block, a uint64, is its 64 bits.
pub mod Laws
pub mod Uses
use quantumbilling.Common.{
  ℕ, ◌+◌, ◌*◌, ◌/◌, ◌%◌, List, [], ◌∷◌, ◌++◌, Text, Bool, true, false, ◌&&◌, ◌==◌, if◌then◌else◌,
}
use quantumbilling.Batch.Hash.{uint32_mod, fnv32a}

abbrev pub Bits : Type 0
Bits = ℕ → ℕ → Bool

pub record InProcessBloom : Type 0 where
  pub shards : ℕ
  pub bits : Bits

-- blocks per shard
abbrev pub bloom_size : ℕ
bloom_size = 16384

unfoldable pub new_in_process_bloom : ℕ → InProcessBloom
new_in_process_bloom shards = record { shards = shards; bits = λ block bit. false }

unfoldable pub hash : Text → Text → ℕ × ℕ
unfolding fnv32a
hash org_id event_id = (fnv32a (org_id ++ (b':' ∷ event_id)), fnv32a (event_id ++ (b':' ∷ org_id)))

-- `(a + j*c) % uint32(b.shards*bloomSize)`, the sum and product at uint32
unfoldable pub position : ℕ → ℕ × ℕ → ℕ → ℕ
position shards (a, c) j = (a + j * c) % uint32_mod % (shards * bloom_size % uint32_mod)

-- `b.bits[h/64] & (1 << (h%64)) != 0`
abbrev pub test : Bits → ℕ → Bool
test bits h = bits (h / 64) (h % 64)

-- `b.bits[h/64] |= 1 << (h%64)`
unfoldable pub set_bit : Bits → ℕ → Bits
set_bit bits h block bit = if block == h / 64 && bit == h % 64 then true else bits block bit

-- the values of the loop counter
abbrev pub rounds : List ℕ
rounds = 0 ∷ 1 ∷ 2 ∷ 3 ∷ []

module _ (shards : ℕ) (hs : ℕ × ℕ) where
  -- The loop of `existsAndAdd` over the rounds that are left.
  unfoldable pub exists_and_add_loop : List ℕ → Bool → Bits → Bool × Bits
  exists_and_add_loop [] was_present bits = (was_present, bits)
  exists_and_add_loop (j ∷ js) was_present bits =
      let h = position shards hs j in
      exists_and_add_loop js (if test bits h then was_present else false)
        (if test bits h then bits else set_bit bits h)

  -- The loop of `add`.
  unfoldable pub add_loop : List ℕ → Bits → Bits
  add_loop [] bits = bits
  add_loop (j ∷ js) bits = add_loop js (set_bit bits (position shards hs j))

unfoldable pub exists_and_add : Text → Text → InProcessBloom → Bool × InProcessBloom
unfolding exists_and_add_loop
exists_and_add org_id event_id b =
    let (was_present, bits) =
      exists_and_add_loop b.shards (hash org_id event_id) rounds true b.bits in
    (was_present, record b { bits = bits })

unfoldable pub add : Text → Text → InProcessBloom → InProcessBloom
unfolding add_loop
add org_id event_id b = record b { bits = add_loop b.shards (hash org_id event_id) rounds b.bits }
