-- ===== src/Batch/Hash.antt =====
-- hash/fnv as the batch handler uses it, and `hashEventID`.
use Prim.Native.Nat.{bit_xor}
use quantumbilling.Common.{ℕ, ◌*◌, ◌%◌, [], ◌∷◌, Text}

abbrev pub uint32_mod : ℕ
uint32_mod = 4294967296

-- FNV-1a over 32 bits, from a running value.
fnv32a_from : ℕ → Text → ℕ
fnv32a_from h [] = h
fnv32a_from h (c ∷ s) = fnv32a_from ((bit_xor h c * 16777619) % uint32_mod) s

unfoldable pub fnv32a : Text → ℕ
unfolding fnv32a_from
fnv32a s = fnv32a_from 2166136261 s

unfoldable pub hash_event_id : Text → ℕ
unfolding fnv32a
hash_event_id event_id = fnv32a event_id
