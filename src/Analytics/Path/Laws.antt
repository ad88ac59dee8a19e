-- ===== src/Analytics/Path/Laws.antt =====
-- The parts of a path, and what `pathParam` reads at a route.
use quantumbilling.Common.{
  ℕ, ◌≡◌, ◌≢◌, refl, ap, ◌∙◌, subst, List, [], ◌∷◌, ◌++◌, Text, false, All, arith, append_assoc,
  append-nil, get_elem?, none, some,
}
use quantumbilling.Analytics.Path.{
  slash, drop_last, split_onto, split_path, trim_front, trim_back, all_slashes, path_param,
}

-- A part of a path: not empty, and without a slash.
abbrev pub IsPart : Text → Type 0
IsPart s = (s ≢ []) × All (λ c. c ≢ slash) s

-- The parts, each behind a slash.
abbrev pub joined : List Text → Text
joined [] = []
joined (p ∷ ps) = slash ∷ (p ++ joined ps)

split_onto-part :
    (piece s rest : Text)
    → All (λ c. c ≢ slash) s
    → split_onto piece (s ++ rest) ≡ split_onto (piece ++ s) rest
unfolding split_onto
split_onto-part piece [] rest h = rw (append-nil piece) refl
split_onto-part piece (c ∷ s) rest h =
    ground (arith, h.0, split_onto-part (piece ++ c ∷ []) s rest h.1, append_assoc piece (c ∷ []) s)

-- The parts after a first one, which is read already.
split_onto-joined : (p : Text) (ps : List Text) → All IsPart ps → split_onto p (joined ps) ≡ p ∷ ps
unfolding split_onto
split_onto-joined p [] h = refl
split_onto-joined p (q ∷ ps) h =
    ap (λ r. p ∷ r) (split_onto-part [] q (joined ps) h.0.1 ∙ split_onto-joined q ps h.1)

split_onto-parts :
    (p : Text) (ps : List Text) → IsPart p → All IsPart ps → split_onto [] (p ++ joined ps) ≡ p ∷ ps
split_onto-parts p ps h hs = split_onto-part [] p (joined ps) h.1 ∙ split_onto-joined p ps hs

drop_last-append : (s : Text) (d : ℕ) (t : Text) → drop_last (s ++ d ∷ t) ≡ s ++ drop_last (d ∷ t)
drop_last-append [] d t = refl
drop_last-append (c ∷ []) d t = refl
drop_last-append (c ∷ e ∷ s) d t = ap (λ r. c ∷ r) (drop_last-append (e ∷ s) d t)

drop_last-part : (s : Text) → All (λ c. c ≢ slash) s → drop_last s ≡ s
drop_last-part [] h = refl
drop_last-part (c ∷ []) h = ground (arith, h.0)
drop_last-part (c ∷ d ∷ s) h = ap (λ r. c ∷ r) (drop_last-part (d ∷ s) h.1)

drop_last-joined :
    (p : Text) (ps : List Text)
    → IsPart p
    → All IsPart ps
    → drop_last (p ++ joined ps) ≡ p ++ joined ps
drop_last-joined p [] h hs = rw (append-nil p) (drop_last-part p h.1)
drop_last-joined [] (q ∷ ps) h hs = elim (h.0 refl) [ ]
drop_last-joined (c ∷ p) ([] ∷ ps) h hs = elim (hs.0.0 refl) [ ]
drop_last-joined (c ∷ p) ((d ∷ q) ∷ ps) h hs =
    drop_last-append (c ∷ p) slash ((d ∷ q) ++ joined ps)
    ∙ ap (λ r. (c ∷ p) ++ slash ∷ r) (drop_last-joined (d ∷ q) ps hs.0 hs.1)

all_slashes-joined : (p : Text) (ps : List Text) → IsPart p → all_slashes (p ++ joined ps) ≡ false
all_slashes-joined [] ps h = elim (h.0 refl) [ ]
all_slashes-joined (c ∷ p) ps h = ground (arith, h.1.0)

trim_back-append :
    (s t : Text)
    → all_slashes t ≡ false
    → (trim_back (s ++ t) ≡ s ++ trim_back t) × (all_slashes (s ++ t) ≡ false)
trim_back-append [] t h = (refl, h)
trim_back-append (c ∷ s) t h = ground (arith, h, trim_back-append s t h)

trim_back-part : (s : Text) → All (λ c. c ≢ slash) s → trim_back s ≡ s
trim_back-part [] h = refl
trim_back-part (c ∷ s) h = ground (arith, h.0, trim_back-part s h.1)

trim_back-joined :
    (p : Text) (ps : List Text)
    → IsPart p
    → All IsPart ps
    → trim_back (p ++ joined ps) ≡ p ++ joined ps
trim_back-joined p [] h hs = rw (append-nil p) (trim_back-part p h.1)
trim_back-joined p (q ∷ ps) h hs =
    subst (λ s. trim_back s ≡ s) (append_assoc p (slash ∷ []) (q ++ joined ps))
      ((trim_back-append (p ++ slash ∷ []) (q ++ joined ps) (all_slashes-joined q ps hs.0)).0
        ∙ ap (λ r. (p ++ slash ∷ []) ++ r) (trim_back-joined q ps hs.0 hs.1))

-- A path is split into the parts that it was joined from.
pub split_path-joined :
    (p : Text) (ps : List Text) → IsPart p → All IsPart ps → split_path (joined (p ∷ ps)) ≡ p ∷ ps
unfolding split_path
split_path-joined [] ps h hs = elim (h.0 refl) [ ]
split_path-joined (c ∷ p) ps h hs =
    rw (drop_last-joined (c ∷ p) ps h hs) (split_onto-parts (c ∷ p) ps h hs)

-- `pathParam` gives the part at its index, counted from zero, and nothing behind the last part.
pub path_param-joined :
    (p : Text) (ps : List Text) (index : ℕ)
    → IsPart p
    → All IsPart ps
    → path_param (joined (p ∷ ps)) index
      ≡ elim (get_elem? (p ∷ ps) index) [ none ↦ [] | some part ↦ part ]
unfolding path_param
path_param-joined [] ps index h hs = elim (h.0 refl) [ ]
path_param-joined (c ∷ p) ps index h hs =
    let front : trim_front (c ∷ (p ++ joined ps)) ≡ c ∷ (p ++ joined ps) = ground (arith, h.1.0) in
    ap (λ (l : List Text). elim (get_elem? l index) as (λ x. Text) [ none ↦ [] | some part ↦ part ])
      (ap (λ t. split_onto [] (trim_back t)) front
        ∙ (ap (split_onto []) (trim_back-joined (c ∷ p) ps h hs)
            ∙ split_onto-parts (c ∷ p) ps h hs))
