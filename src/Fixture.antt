-- ===== src/Fixture.antt =====
-- engine/internal/fixture/generator.go: events for tests, from a seeded source of random numbers.
pub mod Laws
use quantumbilling.Common.{
  ℕ, zero, suc, ◌+◌, ◌-◌, ◌/◌, ◌%◌, ◌<◌, List, [], ◌∷◌, ◌++◌, Text, text, length, ltb, ◌==◌,
  if◌then◌else◌, text_eq,
}
use quantumbilling.Common.Digits.{decimal, hex_digit}
use quantumbilling.Common.Int.{ℤ, pos, negsuc, neg_part, ◌+ℤ◌, wrap32, add32}
use quantumbilling.Common.Float.{from_int32}
use quantumbilling.Models.{UsageEvent, source_mode_direct_ingest}

-- math/rand: Intn and Float64 over the state of the source; and `%.9f` of a cost.
pub record Rng : Type 1 where
  pub Source : Type 0
  pub Fraction : Type 0
  pub intn : ℕ → Source → ℕ × Source
  pub float64 : Source → Fraction × Source
  pub int63 : Source → ℕ × Source
  pub format_cost : ℤ → Fraction → Text

-- `Intn(n)` is below `n`.
pub record RngLaws (rng : Rng) : Type 0 where
  pub intn-lt : (n : ℕ) (s : rng.Source) → 0 < n → (rng.intn n s).0 < n

abbrev pub model_names : List Text
model_names =
    text "gpt-4"
    ∷ text "gpt-3.5-turbo"
    ∷ text "claude-3-opus"
    ∷ text "claude-3-sonnet"
    ∷ text "gemini-pro"
    ∷ []

abbrev pub event_types : List Text
event_types = text "chat.completion" ∷ text "embedding" ∷ text "image.generation" ∷ []

abbrev pub statuses : List Text
statuses = text "success" ∷ text "success" ∷ text "success" ∷ text "error" ∷ []

abbrev pub end_user_pool : List Text
end_user_pool =
    text "eu-00000000-0000-4000-a000-000000000001"
    ∷ text "eu-00000000-0000-4000-a000-000000000002"
    ∷ text "eu-00000000-0000-4000-a000-000000000003"
    ∷ []

-- An element of a slice. An index behind the end, which panics, gives no text; `Intn` of the length
-- draws none.
abbrev pub pick : List Text → ℕ → Text
pick [] i = []
pick (x ∷ xs) zero = x
pick (x ∷ xs) (suc i) = pick xs i

abbrev pub zeros : ℕ → Text
zeros zero = []
zeros (suc n) = b'0' ∷ zeros n

abbrev pub pad : ℕ → Text → Text
pad width s = zeros (width - length s) ++ s

-- `%016d`
unfoldable pub show_seed : ℤ → Text
unfolding decimal
show_seed (pos n) = pad 16 (decimal n)
show_seed (negsuc n) = b'-' ∷ pad 15 (decimal (suc n))

-- The digits of `%x` in front of `out`; the fuel `n + 1` is more than their number.
hex_onto : ℕ → ℕ → Text → Text
hex_onto zero n out = out
hex_onto (suc f) n out =
    let rest = hex_onto f (n / 16) (hex_digit (n % 16) ∷ out) in
    if ltb n 16 then hex_digit n ∷ out else rest

-- `evt-%016d-%08x`
unfoldable pub event_id_of : ℤ → ℕ → Text
unfolding show_seed hex_onto
event_id_of seed i = text "evt-" ++ (show_seed seed ++ (b'-' ∷ pad 8 (hex_onto (suc i) i [])))

-- `%x` of a number, with leading zeros up to a width
unfoldable pub show_hex : ℕ → ℤ → Text
unfolding hex_onto
show_hex width (pos n) = pad width (hex_onto (suc n) n [])
show_hex width (negsuc n) = b'-' ∷ pad (width - 1) (hex_onto (suc (suc n)) (suc n) [])

-- `%08x-%04x-4%03x-a%03x-%012x` behind a prefix
unfoldable pub tenant_id : Text → ℤ → ℕ → ℕ → ℕ → ℕ → Text
unfolding show_hex
tenant_id prefix seed i a b c =
    prefix
    ++ (show_hex 8 seed
        ++ (b'-'
            ∷ (show_hex 4 (pos i)
                ++ (text "-4"
                    ++ (show_hex 3 (pos a)
                        ++ (text "-a" ++ (show_hex 3 (pos b) ++ (b'-' ∷ show_hex 12 (pos c)))))))))

-- An entry of a Go map, which replaces one under the same key
put_events : Text → List UsageEvent → List (Text × List UsageEvent) → List (Text × List UsageEvent)
put_events k es [] = (k, es) ∷ []
put_events k es ((j, fs) ∷ m) =
    let rest = put_events k es m in if text_eq j k then (k, es) ∷ m else (j, fs) ∷ rest

abbrev pub minus : ℤ → ℕ → ℤ
minus a zero = a
minus a (suc n) = a +ℤ negsuc n

-- `int32(n)`
abbrev pub int32_of : ℕ → ℤ
int32_of n = wrap32 (pos n)

-- `time.Now().UnixMilli()` at the event of an index
abbrev pub Clock : Type 0
Clock = ℕ → ℤ

module _ (rng : Rng) (seed : ℤ) (org_id customer_id : Text) where
  -- `thinkingTokens`, which a third of the events have
  unfoldable pub draw_thinking : rng.Source → ℤ × rng.Source
  draw_thinking s =
      let (third, s1) = rng.intn 3 s in
      if third == 0 then (int32_of (rng.intn 500 s1).0, (rng.intn 500 s1).1) else (pos 0, s1)

  -- The body of the loop at index `i`.
  unfoldable pub generate_one : Clock → ℕ → rng.Source → UsageEvent × rng.Source
  unfolding draw_thinking event_id_of
  generate_one clock i s =
      let (user, s1) = rng.intn (length end_user_pool) s in
      let (model, s2) = rng.intn (length model_names) s1 in
      let (input, s3) = rng.intn 2000 s2 in
      let (output, s4) = rng.intn 1000 s3 in
      let (thinking, s5) = draw_thinking s4 in
      let (fraction, s6) = rng.float64 s5 in
      let (type, s7) = rng.intn (length event_types) s6 in
      let (status, s8) = rng.intn (length statuses) s7 in
      let (age, s9) = rng.intn 3600000 s8 in
      let spent = add32 (int32_of (50 + input)) (int32_of (20 + output)) in
      (
        record {
          event_id = event_id_of seed i;
          org_id = org_id;
          customer_id = customer_id;
          end_user_id = pick end_user_pool user;
          session_id = [];
          source_mode = source_mode_direct_ingest;
          key_id = text "key-dev-000000000000";
          event_type = pick event_types type;
          model = pick model_names model;
          input_tokens = int32_of (50 + input);
          output_tokens = int32_of (20 + output);
          thinking_tokens = thinking;
          total_tokens = from_int32 (add32 spent thinking);
          unit = [];
          latency = [];
          cost = rng.format_cost spent fraction;
          status = pick statuses status;
          service = text "openai";
          timestamp_ms = minus (clock i) age;
          metadata = [];
        },
        s9,
      )

  -- The loop from index `i` on, with `n` events to go.
  unfoldable pub generate_from : Clock → ℕ → ℕ → rng.Source → List UsageEvent × rng.Source
  generate_from clock i zero s = ([], s)
  generate_from clock i (suc n) s =
      let (e, s') = generate_one clock i s in
      let (es, t) = generate_from clock (suc i) n s' in (e ∷ es, t)

  -- `Generate`, and `GenerateVolume`
  unfoldable pub generate : Clock → ℕ → rng.Source → List UsageEvent × rng.Source
  unfolding generate_from
  generate clock n s = generate_from clock 0 n s

  -- `GenerateBatch`
  unfoldable pub generate_batch : Clock → rng.Source → List UsageEvent × rng.Source
  unfolding generate
  generate_batch clock s = generate clock 50000 s

module _ (rng : Rng) (seed : ℤ) where
  -- The three draws of an identifier
  abbrev draw_id : Text → ℤ → ℕ → rng.Source → Text × rng.Source
  draw_id prefix of_seed i s =
      let (a, s1) = rng.intn 4095 s in
      let (b, s2) = rng.intn 4095 s1 in
      let (c, s3) = rng.int63 s2 in (tenant_id prefix of_seed i a b c, s3)

  -- The loop of `MultiTenant` from index `i`, with `n` organizations to go.
  unfoldable pub multi_tenant_from :
      (ℕ → Clock)
      → ℕ
      → ℕ
      → ℕ
      → List (Text × List UsageEvent)
      → rng.Source
      → List (Text × List UsageEvent) × rng.Source
  unfolding generate put_events
  multi_tenant_from clocks events_per_org i zero result s = (result, s)
  multi_tenant_from clocks events_per_org i (suc n) result s =
      let (org_id, s1) = draw_id (text "org-") seed i s in
      let (customer_id, s2) = draw_id (text "cust-") (seed +ℤ pos 1) i s1 in
      let (es, s3) = generate rng seed org_id customer_id (clocks i) events_per_org s2 in
      multi_tenant_from clocks events_per_org (suc i) n (put_events org_id es result) s3

  -- `MultiTenant`
  unfoldable pub multi_tenant :
      (ℕ → Clock) → ℕ → ℕ → rng.Source → List (Text × List UsageEvent) × rng.Source
  unfolding multi_tenant_from
  multi_tenant clocks orgs events_per_org s = multi_tenant_from clocks events_per_org 0 orgs [] s
