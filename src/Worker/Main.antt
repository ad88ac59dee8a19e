-- ===== src/Worker/Main.antt =====
-- engine/cmd/analytics-worker/main.go: the loop that consumes, the health and metrics handlers, and
-- the shutdown.
use quantumbilling.Common.{
  ltb, ◌-◌, ℕ, List, [], ◌∷◌, ◌++◌, Text, text, Bool, true, false, ◌&&◌, Option, none, some,
  if◌then◌else◌,
}
use quantumbilling.Common.Digits.{decimal}
use quantumbilling.Models.{UsageEvent}
use quantumbilling.Consumer.{Consumer, consume_batch, lag}
use quantumbilling.Worker.Writer.{Writer, Sink}
use quantumbilling.Worker.Writer.Config.{ping}
use quantumbilling.Worker.Service.{Buffer, add_events, flush, pending_count}

abbrev pub batch_size : ℕ
batch_size = 10000

abbrev pub batch_timeout_ms : ℕ
batch_timeout_ms = 2000

unfoldable pub bool_status : Bool → Text
bool_status ok = if ok then text "ok" else text "error"

-- A status and a body
pub record HealthReply : Type 0 where
  pub status : ℕ
  pub body : Text

abbrev is_none : Option Text → Bool
is_none none = true
is_none (some message) = false

-- The handler of /ready
unfoldable pub ready_handler : Writer → HealthReply
unfolding bool_status ping
ready_handler w =
    let kafka_ok = true in
    let ch_ok = is_none (ping w) in
    if kafka_ok && ch_ok
    then record {
      status = 200;
      body = text "{\"status\":\"ready\",\"checks\":{\"kafka\":\"ok\",\"clickhouse\":\"ok\"}}";
    }
    else record {
      status = 503;
      body =
          text "{\"status\":\"not_ready\",\"checks\":{\"kafka\":\""
          ++ (bool_status kafka_ok
              ++ (text "\",\"clickhouse\":\"" ++ (bool_status ch_ok ++ text "\"}}")));
    }

-- `%d` of an int64 that is given by its bits
show_int64 : ℕ → Text
show_int64 bits =
    if ltb bits 9223372036854775808
    then decimal bits
    else b'-' ∷ decimal (18446744073709551616 - bits)

-- The three lines of a metric, whose value is printed as `shown`
metric : Text → Text → Text → Text → Text
metric name help kind shown =
    text "# HELP "
    ++ (name
        ++ (text " "
            ++ (help
                ++ (text "\n# TYPE "
                    ++ (name
                        ++ (text " "
                            ++ (kind
                                ++ (text "\n"
                                    ++ (name ++ (text " " ++ (shown ++ text "\n")))))))))))

-- The page of /metrics
unfoldable pub metrics_handler : Consumer → Writer → Buffer → Text
unfolding lag pending_count metric show_int64
metrics_handler c w b =
    metric (text "quantumbilling_clickhouse_inserted_rows")
      (text "Total rows inserted into ClickHouse") (text "counter") (show_int64 w.inserted_rows)
    ++ (metric (text "quantumbilling_clickhouse_insert_errors") (text "Total insert errors")
          (text "counter") (show_int64 w.insert_errors)
        ++ (metric (text "quantumbilling_consumer_lag")
              (text "Consumer group lag (unread messages)") (text "gauge") (decimal (lag c))
            ++ metric (text "quantumbilling_batch_pending") (text "Events pending in flush buffer")
                (text "gauge") (decimal (pending_count b))))

-- What a consumed batch does: an error is logged, and an empty batch is nothing to add.
unfoldable pub take_in : ℕ → List UsageEvent × Option Text → Buffer → Buffer
take_in size (es, some message) b = b
take_in size ([], none) b = b
take_in size (e ∷ es, none) b = add_events size (e ∷ es) b

-- A pass of the loop. The service's own batch size decides on its signal.
unfoldable pub consume_loop : Consumer → ℕ → Buffer → Buffer
unfolding take_in consume_batch
consume_loop c size b = take_in size (consume_batch c batch_size batch_timeout_ms) b

-- The final flush
unfoldable pub shut_down : (sink : Sink) → Buffer × sink.State → Buffer × sink.State
unfolding flush
shut_down sink x = flush sink x
