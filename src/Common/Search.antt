-- ===== src/Common/Search.antt =====
-- `strings.HasPrefix` and `strings.Contains` over bytes.
use quantumbilling.Common.{All, ◌≢◌, Bool, true, false, ◌&&◌, ◌||◌, [], ◌∷◌, Text, ◌==◌}

unfoldable pub has_prefix : Text → Text → Bool
has_prefix s [] = true
has_prefix [] (d ∷ t) = false
has_prefix (c ∷ s) (d ∷ t) = c == d && has_prefix s t

unfoldable pub contains : Text → Text → Bool
unfolding has_prefix
contains [] t = has_prefix [] t
contains (c ∷ s) t = has_prefix (c ∷ s) t || contains s t

-- No colon in a text.
abbrev pub LacksColon : Text → Type 0
LacksColon = All (λ c. c ≢ b':')
