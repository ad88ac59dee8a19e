-- ===== src/Tracing.antt =====
-- engine/internal/tracing/tracing.go: the W3C traceparent header.
pub mod Laws
use quantumbilling.Common.{
  ℕ, List, [], ◌∷◌, ◌++◌, Text, text, text_eq, Bool, true, false, not, ◌||◌, Option, none, some,
  length, take, drop, ltb, ◌==◌, is_empty, if◌then◌else◌,
}
use quantumbilling.Models.EventId.{slice}

pub record TraceContext : Type 0 where
  pub trace_id : Text
  pub span_id : Text
  pub trace_flags : Text

-- `ParseTraceParent`
unfoldable pub parse_trace_parent : Text → Option TraceContext
parse_trace_parent traceparent =
    if is_empty traceparent || ltb (length traceparent) 55
    then none
    else if not (length traceparent == 55)
        || (not (text_eq (slice 0 3 traceparent) (text "00-"))
            || (not (text_eq (slice 35 36 traceparent) (text "-"))
                || not (text_eq (slice 52 53 traceparent) (text "-"))))
    then none
    else some (record {
      trace_id = slice 3 35 traceparent;
      span_id = slice 36 52 traceparent;
      trace_flags = slice 53 55 traceparent;
    })

-- `String`, where none is the nil pointer
unfoldable pub to_string : Option TraceContext → Text
to_string none = []
to_string (some tc) =
    text "00-" ++ (tc.trace_id ++ (text "-" ++ (tc.span_id ++ (text "-" ++ tc.trace_flags))))

-- `Middleware`: the context of the request, from the header, which is empty if it is missing.
unfoldable pub middleware : Text → Option TraceContext → Option TraceContext
unfolding parse_trace_parent
middleware header context =
    if is_empty header
    then context
    else elim (parse_trace_parent header) [ none ↦ context | some tc ↦ some tc ]
