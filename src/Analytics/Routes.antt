-- ===== src/Analytics/Routes.antt =====
-- The routes of engine/cmd/analytics-api/main.go.
pub mod Laws
pub mod Zeros
use quantumbilling.Common.{Text, text, text_eq, Bool, true, false, not, if◌then◌else◌, ◌++◌}
use quantumbilling.Common.Search.{has_prefix}
use quantumbilling.Analytics.Path.{match_path}
use quantumbilling.Analytics.Reports.{
  Query, Page, healthy, is_ready, redirect, not_found, org_summary_handler, usage_page_handler,
  usage_breakdown_handler, org_cost_handler, customer_summary_handler, customer_cost_handler,
  end_user_summary_handler, end_user_daily_handler, trend_handler, cost_report_handler,
}

-- The handler of "/v1/orgs/"
unfoldable pub org_route : Text → Page
org_route path =
    if match_path path (text "/v1/orgs/*/summary")
    then org_summary_handler path
    else if match_path path (text "/v1/orgs/*/customers/usage")
    then usage_page_handler
    else if match_path path (text "/v1/orgs/*/models/usage")
    then usage_breakdown_handler
    else if match_path path (text "/v1/orgs/*/services/usage")
    then usage_breakdown_handler
    else if match_path path (text "/v1/orgs/*/cost")
    then org_cost_handler path
    else not_found

-- The handler of "/v1/customers/"
unfoldable pub customer_route : Text → Page
customer_route path =
    if match_path path (text "/v1/customers/*/summary")
    then customer_summary_handler path
    else if match_path path (text "/v1/customers/*/end-users/usage")
    then usage_page_handler
    else if match_path path (text "/v1/customers/*/models/usage")
    then usage_breakdown_handler
    else if match_path path (text "/v1/customers/*/cost")
    then customer_cost_handler path
    else not_found

-- The handler of "/v1/end-users/"
unfoldable pub end_user_route : Query → Text → Page
end_user_route query path =
    if match_path path (text "/v1/end-users/*/summary")
    then end_user_summary_handler path
    else if match_path path (text "/v1/end-users/*/daily")
    then end_user_daily_handler query
    else not_found

-- The patterns of the mux below "/v1/analytics/", which are exact.
unfoldable pub analytics_route : Query → Text → Page
analytics_route query path =
    if text_eq path (text "/v1/analytics/hourly")
    then trend_handler (text "hourly") query
    else if text_eq path (text "/v1/analytics/daily")
    then trend_handler (text "daily") query
    else if text_eq path (text "/v1/analytics/weekly")
    then trend_handler (text "weekly") query
    else if text_eq path (text "/v1/analytics/monthly")
    then trend_handler (text "monthly") query
    else if text_eq path (text "/v1/analytics/models/usage")
    then usage_breakdown_handler
    else if text_eq path (text "/v1/analytics/services/usage")
    then usage_breakdown_handler
    else if text_eq path (text "/v1/analytics/cost")
    then cost_report_handler
    else not_found

-- The mux at a clean path.
unfoldable pub route : Query → Text → Page
unfolding org_route customer_route end_user_route analytics_route
route query path =
    if text_eq path (text "/health")
    then healthy
    else if text_eq path (text "/ready")
    then is_ready
    else if has_prefix path (text "/v1/orgs/")
    then org_route path
    else if has_prefix path (text "/v1/customers/")
    then customer_route path
    else if has_prefix path (text "/v1/end-users/")
    then end_user_route query path
    else analytics_route query path

-- The bare names of the three subtrees
abbrev pub is_subtree : Text → Bool
is_subtree path =
    if text_eq path (text "/v1/orgs")
    then true
    else if text_eq path (text "/v1/customers")
    then true
    else text_eq path (text "/v1/end-users")

-- The server, behind the redirects of http.ServeMux to the clean path and into a subtree.
unfoldable pub serve : (Text → Text) → Text → Query → Text → Page
unfolding route
serve clean_path method query path =
    let clean = if text_eq method (text "CONNECT") then path else clean_path path in
    if is_subtree clean
    then redirect (clean ++ text "/")
    else if not (text_eq clean path)
    then redirect clean
    else route query clean
