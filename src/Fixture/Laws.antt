-- ===== src/Fixture/Laws.antt =====
-- What the generated events are.
use quantumbilling.Common.{
  ℕ, zero, suc, ◌+◌, ◌<◌, ◌≡◌, ◌≢◌, ◌∙◌, refl, ap, List, [], ◌∷◌, map, Text, text, false, length,
  All, arith, Bool-cases, inl, inr, ◌==◌,
}
use quantumbilling.Common.Int.{ℤ, pos, is_neg, wrap32, add32, add32_exact, int32_half}
use quantumbilling.Common.Float.{lt_zero, from_int32}
use quantumbilling.Models.{UsageEvent}
use quantumbilling.Models.Laws.{IsValid}
use quantumbilling.Fixture.{
  Rng, RngLaws, Clock, pick, event_types, model_names, end_user_pool, int32_of, draw_thinking,
  generate_one, generate_from, generate,
}

int32_of_exact : (n : ℕ) → n < int32_half → int32_of n ≡ pos n
unfolding wrap32
int32_of_exact n small = ground arith

pick-ne-nil : (xs : List Text) (i : ℕ) → All (λ x. x ≢ []) xs → i < length xs → pick xs i ≢ []
pick-ne-nil [] i named small = absurd (omega (arith, small))
pick-ne-nil (x ∷ xs) zero named small = named.0
pick-ne-nil (x ∷ xs) (suc i) named small = pick-ne-nil xs i named.1 (omega (arith, small))

event_types-named : All (λ x. x ≢ []) event_types
unfolding text
event_types-named = ground arith

model_names-named : All (λ x. x ≢ []) model_names
unfolding text
model_names-named = ground arith

cons_eq : {e d : UsageEvent} {es ds : List UsageEvent} → e ≡ d → es ≡ ds → e ∷ es ≡ d ∷ ds
cons_eq p q = rw (p, q) refl

-- The total of three counts that are small together
total_positive :
    (a b c : ℕ) (i o t : ℤ)
    → i ≡ pos a
    → o ≡ pos b
    → t ≡ pos c
    → a + b + c < int32_half
    → lt_zero (from_int32 (add32 (add32 i o) t)) ≡ false
total_positive a b c i o t hi ho ht small =
    rw (hi, ho, ht, add32_exact a b (omega (arith, small)), add32_exact (a + b) c small) refl

module _ (rng : Rng) (laws : RngLaws rng) (seed : ℤ) (org_id customer_id : Text) where
  thinking_small :
      (s : rng.Source)
      → (k : ℕ) × ((draw_thinking rng seed org_id customer_id s).0 ≡ pos k) × (k < 500)
  unfolding draw_thinking
  thinking_small s =
      let (third, s1) = rng.intn 3 s in
      let k = (rng.intn 500 s1).0 in
      let small = laws.intn-lt 500 s1 (ground arith) in
      elim (Bool-cases (third == 0)) [
        | inl p ↦ (k, ground (arith, p, int32_of_exact k (omega (arith, small))), small)
        | inr p ↦ (0, ground (arith, p), ground arith)
      ]

  -- A generated event is valid, and of its tenant and customer.
  pub record IsSample (e : UsageEvent) : Type 0 where
    pub valid : IsValid e
    pub org : e.org_id ≡ org_id
    pub customer : e.customer_id ≡ customer_id

  generate_one-IsSample :
      (clock : Clock) (i : ℕ) (s : rng.Source)
      → IsSample (generate_one rng seed org_id customer_id clock i s).0
  unfolding generate_one
  generate_one-IsSample clock i s =
      let (user, s1) = rng.intn (length end_user_pool) s in
      let (model, s2) = rng.intn (length model_names) s1 in
      let (input, s3) = rng.intn 2000 s2 in
      let (output, s4) = rng.intn 1000 s3 in
      let s5 = (draw_thinking rng seed org_id customer_id s4).1 in
      let s6 = (rng.float64 s5).1 in
      let (k, thinking, small) = thinking_small s4 in
      let i_small = laws.intn-lt 2000 s2 (ground arith) in
      let o_small = laws.intn-lt 1000 s3 (ground arith) in
      let i_exact = int32_of_exact (50 + input) (omega (arith, i_small)) in
      let o_exact = int32_of_exact (20 + output) (omega (arith, o_small)) in
      record {
        valid = record {
          typed =
              pick-ne-nil event_types (rng.intn (length event_types) s6).0 event_types-named
                (laws.intn-lt (length event_types) s6 (ground arith));
          modelled =
              pick-ne-nil model_names model model_names-named
                (laws.intn-lt (length model_names) s1 (ground arith));
          input = ap is_neg i_exact;
          output = ap is_neg o_exact;
          thinking = ap is_neg thinking;
          total =
              total_positive (50 + input) (20 + output) k _ _ _ i_exact o_exact thinking
                (omega (arith, i_small, o_small, small));
        };
        org = refl;
        customer = refl;
      }

  -- What is left of an event without its time.
  abbrev pub timeless : UsageEvent → UsageEvent
  timeless e = record e { timestamp_ms = pos 0 }

  pub record AreSamples (clock clock' : Clock) (n : ℕ) (s : rng.Source) : Type 0 where
    pub number : length (generate rng seed org_id customer_id clock n s).0 ≡ n
    pub samples : All IsSample (generate rng seed org_id customer_id clock n s).0
    pub repeated :
        map timeless (generate rng seed org_id customer_id clock n s).0
        ≡ map timeless (generate rng seed org_id customer_id clock' n s).0
    pub source :
        (generate rng seed org_id customer_id clock n s).1
        ≡ (generate rng seed org_id customer_id clock' n s).1

  one-timeless :
      (clock clock' : Clock) (i : ℕ) (s : rng.Source)
      → (timeless (generate_one rng seed org_id customer_id clock i s).0
          ≡ timeless (generate_one rng seed org_id customer_id clock' i s).0)
        × ((generate_one rng seed org_id customer_id clock i s).1
            ≡ (generate_one rng seed org_id customer_id clock' i s).1)
  unfolding generate_one
  one-timeless clock clock' i s = (refl, refl)

  from-AreSamples :
      (clock clock' : Clock) (i n : ℕ) (s : rng.Source)
      → let out = generate_from rng seed org_id customer_id clock i n s in
        let out' = generate_from rng seed org_id customer_id clock' i n s in
        (length out.0 ≡ n)
        × (All IsSample out.0)
        × (map timeless out.0 ≡ map timeless out'.0)
        × (out.1 ≡ out'.1)
  unfolding generate_from
  from-AreSamples clock clock' i zero s = (refl, tt, refl, refl)
  from-AreSamples clock clock' i (suc n) s =
      let (same, source) = one-timeless clock clock' i s in
      let t = (generate_one rng seed org_id customer_id clock i s).1 in
      let (number, samples, repeated, left) = from-AreSamples clock clock' (suc i) n t in
      (
        ap (λ m. suc m) number,
        (generate_one-IsSample clock i s, samples),
        cons_eq same (
            repeated
            ∙ ap
                (λ u. map timeless (generate_from rng seed org_id customer_id clock' (suc i) n u).0)
                source),
        left ∙ ap (λ u. (generate_from rng seed org_id customer_id clock' (suc i) n u).1) source,
      )

  -- What is generated are as many events as were asked for, each valid and of the given organization
  -- and customer. Whatever the clock shows meanwhile, the same seed and state of the source give the
  -- same events up to their times, and leave the source in the same state.
  pub generate-AreSamples :
      (clock clock' : Clock) (n : ℕ) (s : rng.Source) → AreSamples clock clock' n s
  unfolding generate
  generate-AreSamples clock clock' n s =
      let (number, samples, repeated, left) = from-AreSamples clock clock' 0 n s in
      record { number = number; samples = samples; repeated = repeated; source = left }
