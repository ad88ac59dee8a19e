-- ===== src/Batch/Lookup/Unique.antt =====
-- The organizations that `collectUniqueOrgIDs` collects.
use quantumbilling.Common.{
  ◌≡◌, refl, List, [], ◌∷◌, ◌++◌, Text, is_any, is_any-append, text_eq_iff, false, ◌||◌, arith, map,
  Bool-cases, inl, inr,
}
use quantumbilling.Models.{UsageEvent}
use quantumbilling.Batch.Lookup.{collect_orgs, collect_unique_org_ids}

-- No text stands twice.
abbrev pub IsUnique : List Text → Type 0
IsUnique [] = Unit
IsUnique (x ∷ xs) = (is_any x xs ≡ false) × IsUnique xs

IsUnique-concat :
    (xs : List Text) (x : Text) → IsUnique xs → is_any x xs ≡ false → IsUnique (xs ++ x ∷ [])
IsUnique-concat [] x u new = (unfold is_any in refl, tt)
IsUnique-concat (y ∷ xs) x u new = (apart, IsUnique-concat xs x u.1 (unfold is_any in ground arith))
  where
    apart : is_any y (xs ++ x ∷ []) ≡ false
    apart =
        unfold is_any in
        ground (arith, is_any-append y xs (x ∷ []), text_eq_iff x y, text_eq_iff y x)

collect_orgs-IsUnique :
    (es : List UsageEvent) (result : List Text)
    → IsUnique result
    → IsUnique (collect_orgs es result)
unfolding collect_orgs
collect_orgs-IsUnique [] result u = u
collect_orgs-IsUnique (e ∷ es) result u = elim (Bool-cases (is_any e.org_id result)) [
  | inl old ↦ rw (old, collect_orgs) (collect_orgs-IsUnique es result u)
  | inr new ↦
      rw (new, collect_orgs) (collect_orgs-IsUnique es _ (IsUnique-concat result e.org_id u new))
]

is_any-collect_orgs :
    (x : Text) (es : List UsageEvent) (result : List Text)
    → is_any x (collect_orgs es result) ≡ is_any x result || is_any x (map (λ e. e.org_id) es)
unfolding collect_orgs is_any
is_any-collect_orgs x [] result = ground arith
is_any-collect_orgs x (e ∷ es) result = ground (
  arith,
  is_any-collect_orgs x es result,
  is_any-collect_orgs x es (result ++ e.org_id ∷ []),
  is_any-append x result (e.org_id ∷ []),
  text_eq_iff e.org_id x,
)

-- The organizations of a batch: each one once, and exactly those of its events.
pub collect_unique_org_ids_lem :
    (es : List UsageEvent) (x : Text)
    → IsUnique (collect_unique_org_ids es)
      × (is_any x (collect_unique_org_ids es) ≡ is_any x (map (λ e. e.org_id) es))
unfolding collect_unique_org_ids
collect_unique_org_ids_lem es x =
    (collect_orgs-IsUnique es [] tt, unfold is_any in is_any-collect_orgs x es [])
