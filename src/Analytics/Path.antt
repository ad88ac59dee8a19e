-- ===== src/Analytics/Path.antt =====
-- The paths: `splitPath` and `match` of engine/cmd/analytics-api/main.go, `pathParam` of
-- engine/internal/analytics/service.go.
pub mod Laws
use quantumbilling.Common.{
  ℕ, suc, ◌-◌, List, [], ◌∷◌, ◌++◌, Text, text, text_eq, is_empty, Bool, true, false, ◌&&◌, ◌||◌,
  ◌==◌, Option, none, some, length, take, get_elem?, if◌then◌else◌,
}

abbrev pub slash : ℕ
slash = b'/'

-- `if len(s) > 0 && s[0] == '/' { s = s[1:] }`
abbrev pub drop_first : Text → Text
drop_first [] = []
drop_first (c ∷ s) = if c == slash then s else c ∷ s

-- `if len(s) > 0 && s[len(s)-1] == '/' { s = s[:len(s)-1] }`
abbrev pub drop_last : Text → Text
drop_last [] = []
drop_last (c ∷ []) = if c == slash then [] else c ∷ []
drop_last (c ∷ d ∷ s) = c ∷ drop_last (d ∷ s)

-- The loop over the bytes: `piece` is `s[start:i]`. `strings.Split(s, "/")` is the same.
unfoldable pub split_onto : Text → Text → List Text
split_onto piece [] = piece ∷ []
split_onto piece (c ∷ s) =
    let ended = piece ∷ split_onto [] s in
    let longer = split_onto (piece ++ c ∷ []) s in if c == slash then ended else longer

unfoldable pub split_path : Text → List Text
unfolding split_onto
split_path path = let s = drop_last (drop_first path) in if is_empty s then [] else split_onto [] s

-- The loop of `match`, over parts of the same number
unfoldable pub match_parts : List Text → List Text → Bool
match_parts [] [] = true
match_parts (p ∷ ps) (part ∷ parts) =
    (text_eq p (text "*") || text_eq p part) && match_parts ps parts
match_parts _ _ = false

-- `match`
unfoldable pub match_path : Text → Text → Bool
unfolding split_path match_parts
match_path path pattern =
    let parts = split_path path in
    let pattern_parts = split_path pattern in
    length parts == length pattern_parts && match_parts pattern_parts parts

-- `strings.Trim(s, "/")`: all slashes at both ends
abbrev pub trim_front : Text → Text
trim_front [] = []
trim_front (c ∷ s) = let rest = trim_front s in if c == slash then rest else c ∷ s

-- Only slashes
abbrev pub all_slashes : Text → Bool
all_slashes [] = true
all_slashes (c ∷ s) = c == slash && all_slashes s

abbrev pub trim_back : Text → Text
trim_back [] = []
trim_back (c ∷ s) = let rest = trim_back s in if all_slashes (c ∷ s) then [] else c ∷ rest

-- `pathParam`
unfoldable pub path_param : Text → ℕ → Text
unfolding split_onto
path_param path index = elim (get_elem? (split_onto [] (trim_back (trim_front path))) index) [
  | none ↦ []
  | some part ↦ part
]
