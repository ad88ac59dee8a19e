-- ===== src/Models/EventId/Laws.antt =====
-- The texts of generated identifiers.
use Prim.Native.Nat.{◌/◌, ◌%◌}
use quantumbilling.Common.{
  is_empty, false, ltb, ◌≤◌, ◌-◌, ◌+◌, ◌*◌, take, drop, ℕ, zero, suc, ◌<◌, ◌≡◌, ◌⊎◌, List, [], ◌∷◌,
  Bool, true, arith, ◌&&◌, refl, Text, length, All, get_elem?, ◌==◌, leb, Option, none, some, text,
  ◌++◌, ◌≢◌, ap, ==_iff, Bool-cases, inl, inr, if◌then◌else◌,
}
use quantumbilling.Common.Digits.{hex, hex_digit, IsByte}
use quantumbilling.Models.EventId.{modify, version_4, variant_10, new_uuid, new_event_id}

-- How many of the numbers below `bound` fail a test.
misses : (ℕ → Bool) → ℕ → ℕ
misses test zero = 0
misses test (suc bound) =
    let before = misses test bound in if test bound then before else suc before

-- A test that no byte fails holds of each one.
misses-none :
    (test : ℕ → Bool) (bound byte : ℕ) → misses test bound ≡ 0 → byte < bound → test byte ≡ true
unfolding misses
misses-none test zero byte none_fails lt = ground (arith, lt)
misses-none test (suc bound) byte none_fails lt = elim (Bool-cases (test bound)) [
  | inl holds ↦ ground (arith, holds, none_fails, lt, misses-none test bound byte)
  | inr fails ↦ ground (arith, fails, none_fails)
]

version_table : misses (λ b. hex_digit (version_4 b / 16) == b'4') 256 ≡ 0
unfolding misses version_4 hex_digit
version_table = refl

abbrev is_variant_digit : ℕ → Bool
is_variant_digit c = leb 8 c && leb c 11

variant_table : misses (λ b. is_variant_digit (variant_10 b / 16)) 256 ≡ 0
unfolding misses variant_10
variant_table = refl

abbrev pub IsVariantDigit : ℕ → Type 0
IsVariantDigit c = (c ≡ b'8') ⊎ (c ≡ b'9') ⊎ (c ≡ b'a') ⊎ (c ≡ b'b')

variant_digit : (c : ℕ) → is_variant_digit c ≡ true → IsVariantDigit (hex_digit c)
unfolding hex_digit
variant_digit c h = ground arith

version_digit : (b : ℕ) → b < 256 → hex_digit (version_4 b / 16) ≡ b'4'
version_digit b h = (==_iff _ _).0 (misses-none _ 256 b version_table h)

variant_nibble : (b : ℕ) → b < 256 → is_variant_digit (variant_10 b / 16) ≡ true
variant_nibble b h = misses-none _ 256 b variant_table h

ltb_lt : (n m : ℕ) → ltb n m ≡ true → n < m
ltb_lt n m h = ground (arith, h)

version_byte : misses (λ b. ltb (version_4 b) 256) 256 ≡ 0
unfolding misses version_4
version_byte = refl

variant_byte : misses (λ b. ltb (variant_10 b) 256) 256 ≡ 0
unfolding misses variant_10
variant_byte = refl

-- Hexadecimal digits, and what they stand for
abbrev pub IsHexDigit : ℕ → Type 0
IsHexDigit c = ((b'0' ≤ c) × (c ≤ b'9')) ⊎ ((b'a' ≤ c) × (c ≤ b'f'))

abbrev pub hex_value : ℕ → ℕ
hex_value c = if leb c b'9' then c - b'0' else c - b'a' + 10

unfoldable pub unhex : Text → List ℕ
unhex [] = []
unhex (c ∷ []) = []
unhex (c ∷ d ∷ s) = (16 * hex_value c + hex_value d) ∷ unhex s

hex_digit-IsHexDigit : (n : ℕ) → n < 16 → IsHexDigit (hex_digit n)
unfolding hex_digit
hex_digit-IsHexDigit n h = ground arith

hex_value-hex_digit : (n : ℕ) → n < 16 → hex_value (hex_digit n) ≡ n
unfolding hex_digit
hex_value-hex_digit n h = ground arith

hex-IsHexDigit : (bs : List ℕ) → All IsByte bs → All IsHexDigit (hex bs)
unfolding hex
hex-IsHexDigit [] h = tt
hex-IsHexDigit (b ∷ bs) h = (
  hex_digit-IsHexDigit (b / 16) (omega (arith, h.0)),
  (hex_digit-IsHexDigit (b % 16) (omega arith), hex-IsHexDigit bs h.1),
)

unhex-hex : (bs : List ℕ) → All IsByte bs → unhex (hex bs) ≡ bs
unfolding hex unhex
unhex-hex [] h = refl
unhex-hex (b ∷ bs) h =
    rw
      (
        hex_value-hex_digit (b / 16) (omega (arith, h.0)),
        hex_value-hex_digit (b % 16) (omega arith),
        unhex-hex bs h.1,
      )
      (ap (λ n. n ∷ bs) (omega arith))

version_4-IsByte : (b : ℕ) → IsByte b → IsByte (version_4 b)
version_4-IsByte b h = ltb_lt _ _ (misses-none _ 256 b version_byte h)

variant_10-IsByte : (b : ℕ) → IsByte b → IsByte (variant_10 b)
variant_10-IsByte b h = ltb_lt _ _ (misses-none _ 256 b variant_byte h)

modify-IsByte :
    (i : ℕ) (f : ℕ → ℕ) (bs : List ℕ)
    → ((b : ℕ) → IsByte b → IsByte (f b))
    → All IsByte bs
    → All IsByte (modify i f bs)
modify-IsByte i f [] keeps h = tt
modify-IsByte zero f (b ∷ bs) keeps h = (keeps b h.0, h.1)
modify-IsByte (suc i) f (b ∷ bs) keeps h = (h.0, modify-IsByte i f bs keeps h.1)

-- RFC 4122: hexadecimal digits in the layout 8-4-4-4-12, with the version digit and the variant
-- digit; the digits stand for the random bytes, but for the two bytes of these.
pub record IsUuid4 (random : List ℕ) (s : Text) : Type 0 where
  pub first : Text
  pub second : Text
  pub third : Text
  pub fourth : Text
  pub fifth : Text
  pub layout : s ≡ first ++ b'-' ∷ (second ++ b'-' ∷ (third ++ b'-' ∷ (fourth ++ b'-' ∷ fifth)))
  pub sizes :
      (length first ≡ 8)
      × (length second ≡ 4)
      × (length third ≡ 4)
      × (length fourth ≡ 4)
      × (length fifth ≡ 12)
  pub digits : All IsHexDigit (first ++ (second ++ (third ++ (fourth ++ fifth))))
  pub version : get_elem? third 0 ≡ some b'4'
  pub variant : (c : ℕ) × (get_elem? fourth 0 ≡ some c) × IsVariantDigit c
  pub bytes :
      (x : ℕ) × (y : ℕ) × (unhex (first ++ (second ++ (third ++ (fourth ++ fifth))))
        ≡ take 6 random ++ x ∷ (drop 7 (take 8 random) ++ y ∷ drop 9 random))

-- Sixteen random bytes always give a UUIDv4 text, from which all of them but the two with the fixed
-- bits can be read back.
pub new_uuid-IsUuid4 :
    (random : List ℕ) → length random ≡ 16 → All IsByte random → IsUuid4 random (new_uuid random)
unfolding new_uuid
new_uuid-IsUuid4 (a ∷ b ∷ c ∷ d ∷ e ∷ f ∷ g ∷ h ∷ i ∷ j ∷ k ∷ l ∷ m ∷ n ∷ o ∷ p ∷ []) size bytes =
    let g' = bytes.1.1.1.1.1.1.0 in
    let i' = bytes.1.1.1.1.1.1.1.1.0 in
    let input : List ℕ = a ∷ b ∷ c ∷ d ∷ e ∷ f ∷ g ∷ h ∷ i ∷ j ∷ k ∷ l ∷ m ∷ n ∷ o ∷ p ∷ [] in
    let buf : List ℕ =
      a ∷ b ∷ c ∷ d ∷ e ∷ f ∷ version_4 g ∷ h ∷ variant_10 i ∷ j ∷ k ∷ l ∷ m ∷ n ∷ o ∷ p ∷ [] in
    let all : All IsByte buf =
      modify-IsByte 8 variant_10 (modify 6 version_4 input) variant_10-IsByte
        (modify-IsByte 6 version_4 input version_4-IsByte bytes) in
    record {
      first = hex (a ∷ b ∷ c ∷ d ∷ []);
      second = hex (e ∷ f ∷ []);
      third = hex (version_4 g ∷ h ∷ []);
      fourth = hex (variant_10 i ∷ j ∷ []);
      fifth = hex (k ∷ l ∷ m ∷ n ∷ o ∷ p ∷ []);
      layout = refl;
      sizes = (refl, refl, refl, refl, refl);
      digits = hex-IsHexDigit buf all;
      version = ap some (version_digit g g');
      variant = (hex_digit (variant_10 i / 16), refl, variant_digit _ (variant_nibble i i'));
      bytes = (version_4 g, variant_10 i, unhex-hex buf all);
    }
new_uuid-IsUuid4 _ size bytes = absurd (omega arith)

-- A generated identifier is never empty, with and without random bytes.
pub new_event_id-ne-nil : (random : Option (List ℕ)) (nanos : ℕ) → new_event_id random nanos ≢ []
unfolding new_event_id
new_event_id-ne-nil none nanos = unfold text in cc
new_event_id-ne-nil (some random) nanos = go _ _
  where
    go : (s t : Text) → s ++ b'-' ∷ t ≢ []
    go [] t = cc
    go (c ∷ s) t = cc

nil_of : (s : Text) → is_empty s ≡ true → s ≡ []
nil_of [] p = refl
nil_of (c ∷ s) p = absurd (ground arith)

-- Nor is one that has dashes, however few bytes it is made from.
pub is_empty-new_uuid : (random : List ℕ) → is_empty (new_uuid random) ≡ false
unfolding new_event_id
is_empty-new_uuid random = elim (Bool-cases (is_empty (new_uuid random))) [
  | inl p ↦ elim (new_event_id-ne-nil (some random) 0 (nil_of (new_uuid random) p)) [ ]
  | inr p ↦ p
]
