-- ===== src/Models/EventId.antt =====
-- `newEventID` of engine/internal/models/models.go, which `newUUID` of
-- engine/internal/keys/service.go repeats without the fallback.
pub mod Laws
use Prim.Native.Nat.{bit_and, bit_or}
use quantumbilling.Common.{
  ℕ, zero, suc, List, [], ◌∷◌, ◌++◌, Text, text, Option, none, some, take, drop,
}
use quantumbilling.Common.Digits.{decimal, hex}

-- `buf[i] = f(buf[i])`
abbrev pub modify : ℕ → (ℕ → ℕ) → List ℕ → List ℕ
modify i f [] = []
modify zero f (b ∷ bs) = f b ∷ bs
modify (suc i) f (b ∷ bs) = b ∷ modify i f bs

unfoldable pub version_4 : ℕ → ℕ
version_4 b = bit_or (bit_and b 0x0f) 0x40

unfoldable pub variant_10 : ℕ → ℕ
variant_10 b = bit_or (bit_and b 0x3f) 0x80

-- `buf[i:j]`
abbrev pub slice : ℕ → ℕ → List ℕ → List ℕ
slice i j bs = drop i (take j bs)

-- The text of a UUIDv4 over sixteen random bytes.
unfoldable pub new_uuid : List ℕ → Text
unfolding hex
new_uuid random =
    let buf = modify 8 variant_10 (modify 6 version_4 random) in
    hex (slice 0 4 buf)
    ++ b'-'
      ∷ (hex (slice 4 6 buf)
          ++ b'-'
            ∷ (hex (slice 6 8 buf)
                ++ b'-' ∷ (hex (slice 8 10 buf) ++ b'-' ∷ hex (slice 10 16 buf))))

-- `random` is what crypto/rand gave, `nanos` the clock of the fallback.
unfoldable pub new_event_id : Option (List ℕ) → ℕ → Text
unfolding new_uuid decimal
new_event_id none nanos = text "evt_" ++ decimal nanos
new_event_id (some random) nanos = new_uuid random
