-- ===== src/Tracing/Laws.antt =====
-- `ParseTraceParent` against `String`.
use quantumbilling.Common.{
  ℕ, suc, ◌+◌, ◌-◌, ◌≤◌, ◌≡◌, refl, ap, sym, ◌∙◌, [], ◌∷◌, ◌++◌, Text, text, text_eq, text_eq_iff,
  text_eq_refl, append-nil, subst, zero, Bool, true, none, some, length, length-append, length-take,
  length-drop, take, drop, not, ◌||◌, if◌then◌else◌, ◌==◌, ==_iff, take-append-drop,
  take-append_self, arith,
}
use quantumbilling.Models.EventId.{slice}
use quantumbilling.Tracing.{TraceContext, parse_trace_parent, to_string}

-- The lengths of the three parts.
abbrev pub IsSized : TraceContext → Type 0
IsSized tc = (length tc.trace_id ≡ 32) × (length tc.span_id ≡ 16) × (length tc.trace_flags ≡ 2)

take_at : (n : ℕ) (s t : Text) → length s ≡ n → take n (s ++ t) ≡ s
take_at n s t h = rw (sym h) (take-append_self s t)

take_all : (n : ℕ) (s : Text) → length s ≡ n → take n s ≡ s
take_all n s h = subst (λ u. take n u ≡ s) (append-nil s) (take_at n s [] h)

-- A slice behind a first part is one of what follows.
drop-take_past :
    (i j : ℕ) (s t : Text) → drop (length s + i) (take (length s + j) (s ++ t)) ≡ drop i (take j t)
drop-take_past i j [] t =
    let p : 0 + i ≡ i = omega arith in let q : 0 + j ≡ j = omega arith in rw (p, q) refl
drop-take_past i j (c ∷ s) t =
    let p : suc (length s) + i ≡ suc (length s + i) = omega arith in
    let q : suc (length s) + j ≡ suc (length s + j) = omega arith in
    rw (p, q) (drop-take_past i j s t)

slice-past : (n i j : ℕ) (s t : Text) → length s ≡ n → slice (n + i) (n + j) (s ++ t) ≡ slice i j t
slice-past n i j s t h =
    subst (λ m. drop (m + i) (take (m + j) (s ++ t)) ≡ drop i (take j t)) h (drop-take_past i j s t)

drop-split : (i j : ℕ) (s : Text) → i ≤ j → drop i s ≡ slice i j s ++ drop j s
drop-split zero j s le = sym (take-append-drop j s)
drop-split (suc i) zero s le = ground (arith, le)
drop-split (suc i) (suc j) [] le = refl
drop-split (suc i) (suc j) (c ∷ s) le = drop-split i j s (omega (arith, le))

length-slice : (i j : ℕ) (s : Text) → j ≤ length s → length (slice i j s) ≡ j - i
length-slice i j s le = omega (arith, le, length-drop i (take j s), length-take j s)

-- The slices of a printed header.
module _ (tc : TraceContext) (sized : IsSized tc) where
  abbrev after_trace : Text
  after_trace = text "-" ++ (tc.span_id ++ (text "-" ++ tc.trace_flags))

  abbrev after_span : Text
  after_span = text "-" ++ tc.trace_flags

  slice-trace_id : slice 3 35 (to_string (some tc)) ≡ tc.trace_id
  unfolding to_string text
  slice-trace_id = take_at 32 tc.trace_id after_trace sized.0

  slice-dash : slice 35 36 (to_string (some tc)) ≡ text "-"
  unfolding to_string text
  slice-dash = slice-past 32 0 1 tc.trace_id after_trace sized.0

  slice-span_id : slice 36 52 (to_string (some tc)) ≡ tc.span_id
  unfolding to_string text
  slice-span_id =
      slice-past 32 1 17 tc.trace_id after_trace sized.0 ∙ take_at 16 tc.span_id after_span sized.1

  slice-dash_2 : slice 52 53 (to_string (some tc)) ≡ text "-"
  unfolding to_string text
  slice-dash_2 =
      slice-past 32 17 18 tc.trace_id after_trace sized.0
      ∙ slice-past 16 0 1 tc.span_id after_span sized.1

  slice-trace_flags : slice 53 55 (to_string (some tc)) ≡ tc.trace_flags
  unfolding to_string text
  slice-trace_flags =
      slice-past 32 18 20 tc.trace_id after_trace sized.0
      ∙ (slice-past 16 1 3 tc.span_id after_span sized.1 ∙ take_all 2 tc.trace_flags sized.2)

  length-to_string : length (to_string (some tc)) ≡ 55
  unfolding to_string text
  length-to_string = omega (
    arith,
    sized.0,
    sized.1,
    sized.2,
    length-append tc.trace_id after_trace,
    length-append tc.span_id after_span,
  )

slice-prefix : (tc : TraceContext) → slice 0 3 (to_string (some tc)) ≡ text "00-"
unfolding to_string text
slice-prefix tc = refl

-- A context whose parts have their lengths comes back from its header.
pub parse-to_string :
    (tc : TraceContext) → IsSized tc → parse_trace_parent (to_string (some tc)) ≡ some tc
unfolding parse_trace_parent
parse-to_string tc sized = ground (
  arith,
  slice-prefix tc,
  slice-trace_id tc sized,
  slice-dash tc sized,
  slice-span_id tc sized,
  slice-dash_2 tc sized,
  slice-trace_flags tc sized,
  length-to_string tc sized,
  text_eq_refl (text "00-"),
  text_eq_refl (text "-"),
)

empty_if : (s : Text) → length s ≡ 0 → s ≡ []
empty_if [] h = refl
empty_if (c ∷ s) h = ground (arith, h)

-- The slices of a text of 55 bytes, back in their order.
cut :
    (s : Text)
    → length s ≡ 55
    → slice 0 3 s
        ++ (slice 3 35 s ++ (slice 35 36 s ++ (slice 36 52 s ++ (slice 52 53 s ++ slice 53 55 s))))
      ≡ s
cut s h =
    let past : drop 55 s ≡ [] = empty_if (drop 55 s) (omega (arith, h, length-drop 55 s)) in
    sym (
      drop-split 0 3 s (omega arith)
      ∙ (ap (λ t. slice 0 3 s ++ t)
          (drop-split 3 35 s (omega arith)
            ∙ (ap (λ t. slice 3 35 s ++ t)
                (drop-split 35 36 s (omega arith)
                  ∙ (ap (λ t. slice 35 36 s ++ t)
                      (drop-split 36 52 s (omega arith)
                        ∙ (ap (λ t. slice 36 52 s ++ t)
                            (drop-split 52 53 s (omega arith)
                              ∙ ap (λ t. slice 52 53 s ++ t)
                                  (drop-split 53 55 s (omega arith)
                                    ∙ (ap (λ t. slice 53 55 s ++ t) past
                                        ∙ append-nil (slice 53 55 s))))))))))))

-- What a parse has tested, and the parts that it returns.
record Parsed (s : Text) (tc : TraceContext) : Type 0 where
  long : length s ≡ 55
  prefix : slice 0 3 s ≡ text "00-"
  dash : slice 35 36 s ≡ text "-"
  dash_2 : slice 52 53 s ≡ text "-"
  trace_id : tc.trace_id ≡ slice 3 35 s
  span_id : tc.span_id ≡ slice 36 52 s
  trace_flags : tc.trace_flags ≡ slice 53 55 s

-- What the two tests of a parse leave.
guarded :
    (p q b c d : Bool) (x y : TraceContext)
    → (if p then none else if not q || (not b || (not c || not d)) then none else some x) ≡ some y
    → (q ≡ true) × (b ≡ true) × (c ≡ true) × (d ≡ true) × (y ≡ x)
guarded p q b c d x y h = ground (arith, h)

parsed : (s : Text) (tc : TraceContext) → parse_trace_parent s ≡ some tc → Parsed s tc
unfolding parse_trace_parent
parsed s tc h =
    let (q, b, c, d, e) =
      guarded _ (length s == 55) (text_eq (slice 0 3 s) (text "00-"))
        (text_eq (slice 35 36 s) (text "-")) (text_eq (slice 52 53 s) (text "-")) _ tc h in
    record {
      long = (==_iff (length s) 55).0 q;
      prefix = (text_eq_iff (slice 0 3 s) (text "00-")).0 b;
      dash = (text_eq_iff (slice 35 36 s) (text "-")).0 c;
      dash_2 = (text_eq_iff (slice 52 53 s) (text "-")).0 d;
      trace_id = ap (λ t. t.trace_id) e;
      span_id = ap (λ t. t.span_id) e;
      trace_flags = ap (λ t. t.trace_flags) e;
    }

-- A header that is parsed is the header of its context, whose parts have their lengths.
pub to_string-parse :
    (traceparent : Text) (tc : TraceContext)
    → parse_trace_parent traceparent ≡ some tc
    → (to_string (some tc) ≡ traceparent) × IsSized tc
unfolding to_string
to_string-parse traceparent tc h =
    let p = parsed traceparent tc h in
    let whole = cut traceparent p.long in
    (
      rw (p.trace_id, p.span_id, p.trace_flags, sym p.prefix)
          (subst
            (λ t.
              slice 0 3 traceparent
                ++ (slice 3 35 traceparent
                    ++ (t ++ (slice 36 52 traceparent ++ (text "-" ++ slice 53 55 traceparent))))
              ≡ traceparent)
            p.dash
            (subst
              (λ t.
                slice 0 3 traceparent
                  ++ (slice 3 35 traceparent
                      ++ (slice 35 36 traceparent
                          ++ (slice 36 52 traceparent ++ (t ++ slice 53 55 traceparent))))
                ≡ traceparent)
              p.dash_2 whole)),
      (
        ap length p.trace_id ∙ length-slice 3 35 traceparent (omega (arith, p.long)),
        ap length p.span_id ∙ length-slice 36 52 traceparent (omega (arith, p.long)),
        ap length p.trace_flags ∙ length-slice 53 55 traceparent (omega (arith, p.long)),
      ),
    )
