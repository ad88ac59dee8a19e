-- ===== src/Analytics/Reports.antt =====
-- engine/internal/analytics/service.go: the response types and the handlers of the endpoints, which
-- answer with zeros: none of them queries ClickHouse.
use quantumbilling.Common.{List, [], Text, text}
use quantumbilling.Common.Int.{ℤ, pos}
use quantumbilling.Common.Float.{Float64, zero_value}
use quantumbilling.Analytics.Path.{path_param}

pub record Totals : Type 0 where
  pub requests_count : ℤ
  pub input_tokens : ℤ
  pub output_tokens : ℤ
  pub thinking_tokens : ℤ
  pub total_tokens : Float64
  pub cost : Text

pub record OrgSummary : Type 0 where
  pub org_id : Text
  pub totals : Totals
  pub models_used : List Text
  pub first_event : Text
  pub last_event : Text
  pub days_active : ℤ

pub record BreakdownItem : Type 0 where
  pub group_value : Text
  pub totals : Totals

pub record UsageBreakdown : Type 0 where
  pub totals : Totals
  pub series : List BreakdownItem

pub record Pagination : Type 0 where
  pub limit : ℤ
  pub offset : ℤ
  pub total : ℤ

pub record UsageBreakdownPage : Type 0 where
  pub totals : Totals
  pub series : List BreakdownItem
  pub pagination : Pagination

pub record TrendPoint : Type 0 where
  pub timestamp : Text
  pub totals : Totals

pub record TrendSeries : Type 0 where
  pub granularity : Text
  pub from : Text
  pub to : Text
  pub org_id : Text
  pub points : List TrendPoint

-- The query parameters that the handlers read.
pub record Query : Type 0 where
  pub org_id : Text
  pub from : Text
  pub to : Text

-- The bodies of the replies, all with status 200 but the last one.
pub data Page : Type 0 where
  org_summary : OrgSummary → Page
  -- the identifier, the cost and its currency
  org_cost : Text → Text → Text → Page
  customer_cost : Text → Text → Text → Page
  customer_summary : Text → Totals → Page
  end_user_summary : Text → Totals → Page
  usage_page : UsageBreakdownPage → Page
  usage_breakdown : UsageBreakdown → Page
  trend : TrendSeries → Page
  cost_report : Text → Text → Page
  healthy : Page
  is_ready : Page
  redirect : Text → Page
  not_found : Page

abbrev pub zero_cost : Text
zero_cost = text "0.000000"

-- `Totals{Cost: "0.000000"}`
abbrev pub zero_totals : Totals
zero_totals = record {
  requests_count = pos 0;
  input_tokens = pos 0;
  output_tokens = pos 0;
  thinking_tokens = pos 0;
  total_tokens = zero_value;
  cost = zero_cost;
}

abbrev pub empty_summary : Text → OrgSummary
empty_summary org_id = record {
  org_id = org_id;
  totals = zero_totals;
  models_used = [];
  first_event = [];
  last_event = [];
  days_active = pos 0;
}

-- `OrgSummary`
unfoldable pub org_summary_handler : Text → Page
org_summary_handler path = org_summary (empty_summary (path_param path 3))

-- `OrgCustomersUsage` and `CustomerEndUsersUsage`
unfoldable pub usage_page_handler : Page
usage_page_handler = usage_page (record {
  totals = zero_totals;
  series = [];
  pagination = record { limit = pos 100; offset = pos 0; total = pos 0 };
})

-- `OrgModelsUsage`, `OrgServicesUsage`, `CustomerModelsUsage`, `ModelsUsage` and `ServicesUsage`
unfoldable pub usage_breakdown_handler : Page
usage_breakdown_handler = usage_breakdown (record { totals = zero_totals; series = [] })

unfoldable pub org_cost_handler : Text → Page
org_cost_handler path = org_cost (path_param path 3) zero_cost (text "USD")

unfoldable pub customer_summary_handler : Text → Page
customer_summary_handler path = customer_summary (path_param path 3) zero_totals

unfoldable pub customer_cost_handler : Text → Page
customer_cost_handler path = customer_cost (path_param path 3) zero_cost (text "USD")

unfoldable pub end_user_summary_handler : Text → Page
end_user_summary_handler path = end_user_summary (path_param path 3) zero_totals

unfoldable pub end_user_daily_handler : Query → Page
end_user_daily_handler query = trend (record {
  granularity = text "daily";
  from = query.from;
  to = query.to;
  org_id = [];
  points = [];
})

unfoldable pub trend_handler : Text → Query → Page
trend_handler granularity query = trend (record {
  granularity = granularity;
  from = query.from;
  to = query.to;
  org_id = query.org_id;
  points = [];
})

-- `CostReport`
unfoldable pub cost_report_handler : Page
cost_report_handler = cost_report zero_cost (text "USD")
