-- ===== src/Analytics/Routes/Zeros.antt =====
-- The zero-fill guarantee of the read path.
use quantumbilling.Common.{◌≡◌, [], Text, text, arith, text_eq, if◌then◌else◌}
use quantumbilling.Analytics.Reports.{
  Query, Page, org_summary, org_cost, customer_cost, customer_summary, end_user_summary, usage_page,
  usage_breakdown, trend, cost_report, healthy, is_ready, redirect, not_found, zero_totals,
  zero_cost, org_summary_handler, usage_page_handler, usage_breakdown_handler, org_cost_handler,
  customer_summary_handler, customer_cost_handler, end_user_summary_handler, end_user_daily_handler,
  trend_handler, cost_report_handler,
}
use quantumbilling.Analytics.Routes.{
  org_route, customer_route, end_user_route, analytics_route, route, serve,
}

-- A page whose totals are zero, whose series are empty lists and whose costs are zero, or one
-- without figures.
abbrev pub IsZeroFilled : Page → Type 0
IsZeroFilled (org_summary s) =
    (s.totals ≡ zero_totals) × (s.models_used ≡ []) × (s.first_event ≡ []) × (s.last_event ≡ [])
IsZeroFilled (org_cost id cost currency) = (cost ≡ zero_cost) × (currency ≡ text "USD")
IsZeroFilled (customer_cost id cost currency) = (cost ≡ zero_cost) × (currency ≡ text "USD")
IsZeroFilled (customer_summary id totals) = totals ≡ zero_totals
IsZeroFilled (end_user_summary id totals) = totals ≡ zero_totals
IsZeroFilled (usage_page p) = (p.totals ≡ zero_totals) × (p.series ≡ [])
IsZeroFilled (usage_breakdown b) = (b.totals ≡ zero_totals) × (b.series ≡ [])
IsZeroFilled (trend t) = t.points ≡ []
IsZeroFilled (cost_report cost currency) = (cost ≡ zero_cost) × (currency ≡ text "USD")
IsZeroFilled healthy = Unit
IsZeroFilled is_ready = Unit
IsZeroFilled (redirect path) = Unit
IsZeroFilled not_found = Unit

org_route-IsZeroFilled : (path : Text) → IsZeroFilled (org_route path)
unfolding org_route org_summary_handler usage_page_handler usage_breakdown_handler org_cost_handler
org_route-IsZeroFilled path = ground arith

customer_route-IsZeroFilled : (path : Text) → IsZeroFilled (customer_route path)
unfolding customer_route customer_summary_handler usage_page_handler usage_breakdown_handler
    customer_cost_handler
customer_route-IsZeroFilled path = ground arith

end_user_route-IsZeroFilled :
    (query : Query) (path : Text) → IsZeroFilled (end_user_route query path)
unfolding end_user_route end_user_summary_handler end_user_daily_handler
end_user_route-IsZeroFilled query path = ground arith

analytics_route-IsZeroFilled :
    (query : Query) (path : Text) → IsZeroFilled (analytics_route query path)
unfolding analytics_route trend_handler usage_breakdown_handler cost_report_handler
analytics_route-IsZeroFilled query path = ground arith

route-IsZeroFilled : (query : Query) (path : Text) → IsZeroFilled (route query path)
unfolding route
route-IsZeroFilled query path = ground (
  arith,
  org_route-IsZeroFilled path,
  customer_route-IsZeroFilled path,
  end_user_route-IsZeroFilled query path,
  analytics_route-IsZeroFilled query path,
)

-- Whatever the path, the method and the query, every page that the server answers has zero totals
-- and costs and empty series, never a missing one.
pub serve-IsZeroFilled :
    (clean_path : Text → Text) (method : Text) (query : Query) (path : Text)
    → IsZeroFilled (serve clean_path method query path)
unfolding serve
serve-IsZeroFilled clean_path method query path =
    let clean = if text_eq method (text "CONNECT") then path else clean_path path in
    ground (arith, route-IsZeroFilled query clean)
