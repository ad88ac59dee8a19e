-- ===== src/Keys/Api/Laws.antt =====
-- The string helpers of engine/cmd/keys-api/main.go against `strings.Contains`, and the codes of the
-- replies.
use quantumbilling.Common.{
  ℕ, zero, suc, ◌≤◌, ◌≡◌, ◌≢◌, refl, ap, subst, ◌-◌, [], ◌∷◌, ◌++◌, Text, text, text_eq,
  text_eq_iff, true, ◌&&◌, some, length, take, drop, arith, take-append_self, ◌==◌,
}
use quantumbilling.Common.Search
use quantumbilling.Common.Search.{has_prefix, LacksColon}
use quantumbilling.Keys.Api.{find_sub, contains, find_index, extract_code}

take-has_prefix : (s t : Text) → text_eq (take (length t) s) t ≡ has_prefix s t
unfolding has_prefix text_eq
take-has_prefix s [] = refl
take-has_prefix [] (d ∷ t) = refl
take-has_prefix (c ∷ s) (d ∷ t) = ap (λ b. (c == d) && b) (take-has_prefix s t)

find_sub-Search : (s t : Text) → find_sub s t ≡ Search.contains s t
unfolding find_sub Search.contains
find_sub-Search [] t = take-has_prefix [] t
find_sub-Search (c ∷ s) t = rw (take-has_prefix (c ∷ s) t, find_sub-Search s t) refl

length-has_prefix : (s t : Text) → has_prefix s t ≡ true → length t ≤ length s
unfolding has_prefix
length-has_prefix s [] h = omega arith
length-has_prefix [] (d ∷ t) h = ground (arith, h)
length-has_prefix (c ∷ s) (d ∷ t) h = ground (arith, h, length-has_prefix s t)

length-Search : (s t : Text) → Search.contains s t ≡ true → length t ≤ length s
unfolding Search.contains
length-Search [] t h = length-has_prefix [] t h
length-Search (c ∷ s) t h = ground (arith, h, length-has_prefix (c ∷ s) t, length-Search s t)

has_prefix_refl : (s : Text) → has_prefix s s ≡ true
unfolding has_prefix
has_prefix_refl [] = refl
has_prefix_refl (c ∷ s) = ground (arith, has_prefix_refl s)

Search-prefix : (s t : Text) → has_prefix s t ≡ true → Search.contains s t ≡ true
unfolding Search.contains
Search-prefix [] t h = h
Search-prefix (c ∷ s) t h = rw h refl

-- A suffix occurs.
Search-drop : (n : ℕ) (s t : Text) → drop n s ≡ t → Search.contains s t ≡ true
unfolding Search.contains
Search-drop zero s t h =
    Search-prefix s t (subst (λ u. has_prefix s u ≡ true) h (has_prefix_refl s))
Search-drop (suc n) [] t h = subst (λ u. has_prefix [] u ≡ true) h (has_prefix_refl [])
Search-drop (suc n) (c ∷ s) t h = ground (arith, Search-drop n s t h)

-- A text that is no longer than its prefix is that prefix.
has_prefix-full : (s t : Text) → has_prefix s t ≡ true → length s ≤ length t → text_eq s t ≡ true
unfolding has_prefix text_eq
has_prefix-full [] [] h le = refl
has_prefix-full (c ∷ s) [] h le = ground (arith, le)
has_prefix-full [] (d ∷ t) h le = ground (arith, h)
has_prefix-full (c ∷ s) (d ∷ t) h le = ground (arith, h, le, has_prefix-full s t)

Search-full : (s t : Text) → Search.contains s t ≡ true → length s ≤ length t → text_eq s t ≡ true
unfolding Search.contains
Search-full [] t h le = has_prefix-full [] t h le
Search-full (c ∷ s) t h le = ground (arith, h, le, has_prefix-full (c ∷ s) t, length-Search s t)

-- The handler's search, with its tests on the lengths, the prefix and the suffix, is
-- `strings.Contains`.
pub contains-Search : (s t : Text) → contains s t ≡ Search.contains s t
unfolding contains
contains-Search s t = ground (
  arith,
  find_sub-Search s t,
  length-Search s t,
  Search-full s t,
  text_eq_iff s t,
  Search-drop 0 s t,
  take-has_prefix s t,
  Search-prefix s t,
  Search-drop (length s - length t) s t,
  text_eq_iff (drop (length s - length t) s) t,
)

find_index-colon :
    (code rest : Text)
    → LacksColon code
    → find_index (code ++ b':' ∷ rest) (text ":") ≡ some (length code)
unfolding find_index text text_eq
find_index-colon [] rest h = ground arith
find_index-colon (c ∷ code) rest h = ground (arith, h.0, find_index-colon code rest h.1)

-- The code of an error is what stands in front of its first colon, if that is not empty.
pub extract_code-append :
    (code rest : Text) → code ≢ [] → LacksColon code → extract_code (code ++ b':' ∷ rest) ≡ code
unfolding extract_code
extract_code-append [] rest ne h = elim (ne refl) [ ]
extract_code-append (c ∷ code) rest ne h =
    rw (find_index-colon (c ∷ code) rest h, extract_code)
      (take-append_self (c ∷ code) (b':' ∷ rest))
