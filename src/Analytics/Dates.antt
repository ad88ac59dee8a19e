-- ===== src/Analytics/Dates.antt =====
-- The query helpers of engine/internal/analytics/service.go, which no handler calls.
use quantumbilling.Common.{suc, ◌∷◌, ◌++◌, Text, text, is_empty, Option, none, some, if◌then◌else◌}
use quantumbilling.Common.Digits.{decimal}
use quantumbilling.Common.Int.{ℤ, pos, negsuc, ◌+ℤ◌}

-- `%d`
unfoldable pub show_int : ℤ → Text
unfolding decimal
show_int (pos n) = decimal n
show_int (negsuc n) = b'-' ∷ decimal (suc n)

-- time.Now().UnixMilli(), and the milliseconds of a day that time.Parse reads.
pub record Clock : Type 0 where
  pub now_ms : ℤ
  pub parse_date : Text → Option ℤ

unfoldable pub from_date_ms : Clock → Text → Text
unfolding show_int
from_date_ms clock d =
    if is_empty d
    then text "0"
    else elim (clock.parse_date d) [ none ↦ text "0" | some ms ↦ show_int ms ]

-- 24 hours less a millisecond
abbrev pub last_ms : ℤ
last_ms = pos 86399999

unfoldable pub to_date_ms : Clock → Text → Text
unfolding show_int ◌+ℤ◌
to_date_ms clock d = if is_empty d then show_int clock.now_ms else elim (clock.parse_date d) [
  | none ↦ show_int clock.now_ms
  | some ms ↦ show_int (ms +ℤ last_ms)
]

-- The parameters stand in the text as they are.
unfoldable pub build_org_summary_query : Clock → Text → Text → Text → Text
unfolding from_date_ms to_date_ms
build_org_summary_query clock org_id from to =
    text "\n\t\tSELECT count() AS requests, sum(input_tokens), sum(output_tokens),"
    ++ (text "\n\t\t       sum(thinking_tokens), sum(total_tokens), sum(toDecimal64OrZero(cost))"
        ++ (text "\n\t\tFROM events.usage_events_dedup_v\n\t\tWHERE org_id = '"
            ++ (org_id
                ++ (text "' AND timestamp_ms >= "
                    ++ (from_date_ms clock from
                        ++ (text " AND timestamp_ms <= " ++ to_date_ms clock to))))))

-- `getQueryInt`, with the value of the parameter and strconv.Atoi
unfoldable pub get_query_int : (Text → Option ℤ) → Text → ℤ → ℤ
get_query_int atoi value default_val =
    if is_empty value then default_val else elim (atoi value) [ some v ↦ v | none ↦ default_val ]
