-- ===== src/Analytics/Routes/Laws.antt =====
-- What the routes do with an identifier in the path.
use quantumbilling.Common.{
  ◌≡◌, refl, ap, ◌∙◌, List, [], ◌∷◌, Text, text, text_eq, true, arith, length, ◌==◌, ◌&&◌,
}
use quantumbilling.Analytics.Path.{split_onto, split_path, match_parts, match_path}
use quantumbilling.Analytics.Path.Laws.{IsPart, joined, split_path-joined, path_param-joined}
use quantumbilling.Analytics.Reports.{org_summary, empty_summary, org_summary_handler}
use quantumbilling.Analytics.Routes.{org_route}

-- `/v1/orgs/{id}/{leaf}`
abbrev pub org_path : Text → Text → Text
org_path org_id leaf = joined (text "v1" ∷ text "orgs" ∷ org_id ∷ leaf ∷ [])

literal-IsPart :
    IsPart (text "v1") × IsPart (text "orgs") × IsPart (text "summary") × IsPart (text "cost")
unfolding text
literal-IsPart = ground arith

org_parts :
    (org_id leaf : Text)
    → IsPart org_id
    → IsPart leaf
    → split_path (org_path org_id leaf) ≡ text "v1" ∷ text "orgs" ∷ org_id ∷ leaf ∷ []
org_parts org_id leaf h l =
    split_path-joined (text "v1") (text "orgs" ∷ org_id ∷ leaf ∷ []) literal-IsPart.0
      (literal-IsPart.1, (h, (l, tt)))

match_path-parts :
    (path pattern : Text) (parts : List Text)
    → split_path path ≡ parts
    → match_path path pattern
      ≡ length parts == length (split_path pattern) && match_parts (split_path pattern) parts
unfolding match_path
match_path-parts path pattern parts h = rw h refl

summary_matches :
    (org_id : Text)
    → IsPart org_id
    → match_path (org_path org_id (text "summary")) (text "/v1/orgs/*/summary") ≡ true
summary_matches org_id h =
    match_path-parts (org_path org_id (text "summary")) (text "/v1/orgs/*/summary") _
      (org_parts org_id (text "summary") h literal-IsPart.2)
    ∙ (unfold split_path in
        unfold split_onto in unfold match_parts in unfold text_eq in unfold text in refl)

-- The summary of an organization is served at its path, but for the organization "summary",
-- whatever the path's identifier is: the handler reads the part behind it.
pub org_route-summary :
    (org_id : Text)
    → IsPart org_id
    → (match_path (org_path org_id (text "summary")) (text "/v1/orgs/*/summary") ≡ true)
      × (org_route (org_path org_id (text "summary"))
          ≡ org_summary (empty_summary (text "summary")))
unfolding org_route org_summary_handler
org_route-summary org_id h = (
  summary_matches org_id h,
  rw (summary_matches org_id h) (
      ap (λ id. org_summary (empty_summary id))
        (path_param-joined (text "v1") (text "orgs" ∷ org_id ∷ text "summary" ∷ []) 3
          literal-IsPart.0 (literal-IsPart.1, (h, (literal-IsPart.2, tt))))),
)
