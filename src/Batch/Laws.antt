-- ===== src/Batch/Laws.antt =====
-- What a reply of the batch handler stands for.
use quantumbilling.Common.{
  ℕ, suc, ◌+◌, ◌≤◌, ◌≡◌, refl, ap, sym, ◌∙◌, subst, List, [], ◌∷◌, ◌++◌, map, append-nil, Text,
  true, Option, none, some, Option-cases, inl, inr, length, All, arith, if◌then◌else◌,
}
use mathlib.Core.List.{Sublistᴰ}
use quantumbilling.Models.{UsageEvent, KeyContext, Fresh}
use quantumbilling.Models.Laws.{IsScoped, enrich-IsScoped}
use quantumbilling.Models.Codec.{Json, parse_ingest_batch}
use quantumbilling.Platform.Redis.{Redis}
use quantumbilling.Http.{
  Request, Response, error, event_accepted, batch_accepted, Publication, World,
}
use quantumbilling.Ingest.{IngestHandler}
use quantumbilling.Ingest.Rollback.{is_error}
use quantumbilling.Batch.{
  enrich_all, encode, publish_batch, run_batch, authorize_batch, parse_batch, handle_batch_event,
}
use quantumbilling.Batch.Process.{BatchResult, process_batch_events}
use quantumbilling.Batch.Process.Counts.{
  process_batch_events-IsCounted, process_batch_events-accepted,
}
use quantumbilling.Batch.Lookup.{
  collect_unique_org_ids, collect_unique_eu_pairs, batch_org_check, batch_eu_check,
}

length-enrich_all :
    (kc : KeyContext) (fresh : ℕ → Fresh) (i : ℕ) (es : List UsageEvent)
    → length (enrich_all kc fresh i es) ≡ length es
unfolding enrich_all
length-enrich_all kc fresh i [] = refl
length-enrich_all kc fresh i (e ∷ es) = ap (λ n. suc n) (length-enrich_all kc fresh (suc i) es)

enrich_all-IsScoped :
    (kc : KeyContext) (fresh : ℕ → Fresh) (i : ℕ) (es : List UsageEvent)
    → All (IsScoped kc) (enrich_all kc fresh i es)
unfolding enrich_all
enrich_all-IsScoped kc fresh i [] = tt
enrich_all-IsScoped kc fresh i (e ∷ es) =
    (enrich-IsScoped kc (fresh i) e, enrich_all-IsScoped kc fresh (suc i) es)

length-map : (f : UsageEvent → Text) (es : List UsageEvent) → length (map f es) ≡ length es
length-map f [] = refl
length-map f (e ∷ es) = ap (λ n. suc n) (length-map f es)

module _ {A : Type 0} (P : A → Type 0) where
  All-Sublistᴰ : {xs ys : List A} → Sublistᴰ xs ys → All P ys → All P xs
  All-Sublistᴰ Sublistᴰ.slnil h = tt
  All-Sublistᴰ (Sublistᴰ.cons s) h = All-Sublistᴰ s h.1
  All-Sublistᴰ (Sublistᴰ.cons-cons e s) h = (subst P (sym e) h.0, All-Sublistᴰ s h.1)

module _ (redis : Redis) (json : Json) (h : IngestHandler) where
  -- What the publish function gets for a batch.
  abbrev pub batch_publication : KeyContext → List UsageEvent → List Publication
  batch_publication kc accepted =
      if h.pub_batch
      then record { messages = map (encode json) accepted; partition_key = kc.org_id } ∷ []
      else []

  -- The results of steps 2 to 5.
  abbrev org_check : List UsageEvent → World redis → List Text × redis.Store
  org_check es w = batch_org_check redis h.pg (collect_unique_org_ids es) w.store

  abbrev eu_check : List UsageEvent → World redis → List Text × redis.Store
  eu_check es w = batch_eu_check redis h.pg (collect_unique_eu_pairs es) (org_check es w).1

  abbrev outcome : List UsageEvent → World redis → BatchResult × redis.Store
  outcome es w =
      process_batch_events redis h.bloom_num_shards (org_check es w).0 (eu_check es w).0 es
        (eu_check es w).1

  publish_batch-served :
      (kc : KeyContext) (result : BatchResult) (w : World redis) (n m : ℕ)
      → (publish_batch redis json h kc result w).0 ≡ batch_accepted n m
      → (n ≡ length result.accepted)
        × (m ≡ result.failed_count)
        × (1 ≤ n)
        × ((publish_batch redis json h kc result w).1.published
            ≡ w.published ++ batch_publication kc result.accepted)
  unfolding publish_batch
  publish_batch-served kc result w n m q = ground (arith, append-nil w.published)

  publish_batch-refused :
      (kc : KeyContext) (result : BatchResult) (w : World redis)
      → is_error (publish_batch redis json h kc result w).0 ≡ true
      → (publish_batch redis json h kc result w).1.published ≡ w.published
  unfolding publish_batch
  publish_batch-refused kc result w q = ground arith

  run_batch-refused :
      (kc : KeyContext) (es : List UsageEvent) (w : World redis)
      → is_error (run_batch redis json h kc es w).0 ≡ true
      → (run_batch redis json h kc es w).1.published ≡ w.published
  unfolding run_batch
  run_batch-refused kc es w q =
      publish_batch-refused kc (outcome es w).0 (record w { store = (outcome es w).1 }) q

  parse_batch-refused :
      (fresh : ℕ → Fresh) (r : Request) (kc : Option KeyContext) (w : World redis)
      → is_error (parse_batch redis json h fresh r kc w).0 ≡ true
      → (parse_batch redis json h fresh r kc w).1.published ≡ w.published
  unfolding parse_batch authorize_batch
  parse_batch-refused fresh r none w q = ground arith
  parse_batch-refused fresh r (some ctx) w q =
      elim (Option-cases (parse_ingest_batch json r.body)) [
        | inl e ↦ rw (e, parse_batch) refl
        | inr (es, e) ↦ ground (arith, e, q, run_batch-refused ctx (enrich_all ctx fresh 0 es) w)
      ]

  -- A refused batch hands nothing to Kafka.
  pub published-handle_batch_refused :
      (fresh : ℕ → Fresh) (r : Request) (kc : Option KeyContext) (w : World redis)
      → is_error (handle_batch_event redis json h fresh r kc w).0 ≡ true
      → (handle_batch_event redis json h fresh r kc w).1.published ≡ w.published
  unfolding handle_batch_event
  published-handle_batch_refused fresh r kc w q = ground (arith, parse_batch-refused fresh r kc w)

  -- A batch is answered with an error or with its counts.
  abbrev pub IsBatchReply : Response → Type 0
  IsBatchReply (error status code message) = Unit
  IsBatchReply (event_accepted id) = ⊥
  IsBatchReply (batch_accepted accepted failed) = Unit

  publish_batch-IsBatchReply :
      (kc : KeyContext) (result : BatchResult) (w : World redis)
      → IsBatchReply (publish_batch redis json h kc result w).0
  unfolding publish_batch
  publish_batch-IsBatchReply kc result w = ground arith

  parse_batch-IsBatchReply :
      (fresh : ℕ → Fresh) (r : Request) (kc : Option KeyContext) (w : World redis)
      → IsBatchReply (parse_batch redis json h fresh r kc w).0
  unfolding parse_batch authorize_batch run_batch
  parse_batch-IsBatchReply fresh r none w = ground arith
  parse_batch-IsBatchReply fresh r (some ctx) w =
      elim (Option-cases (parse_ingest_batch json r.body)) [
        | inl e ↦ rw (e, parse_batch) tt
        | inr (es, e) ↦
            let o = outcome (enrich_all ctx fresh 0 es) w in
            ground (arith, e, publish_batch-IsBatchReply ctx o.0 (record w { store = o.1 }))
      ]

  pub handle-IsBatchReply :
      (fresh : ℕ → Fresh) (r : Request) (kc : Option KeyContext) (w : World redis)
      → IsBatchReply (handle_batch_event redis json h fresh r kc w).0
  unfolding handle_batch_event
  handle-IsBatchReply fresh r kc w = ground (arith, parse_batch-IsBatchReply fresh r kc w)

  -- What runs behind the checks of a request that is served.
  record Run (fresh : ℕ → Fresh) (r : Request) (kc : Option KeyContext) (w : World redis)
      : Type 0 where
    context : KeyContext
    given : kc ≡ some context
    parsed : List UsageEvent
    body : parse_ingest_batch json r.body ≡ some parsed
    size : length parsed ≤ h.max_batch_size
    same :
        handle_batch_event redis json h fresh r kc w
        ≡ run_batch redis json h context (enrich_all context fresh 0 parsed) w

  handle-Run :
      (fresh : ℕ → Fresh) (r : Request) (kc : Option KeyContext) (w : World redis) (n m : ℕ)
      → (handle_batch_event redis json h fresh r kc w).0 ≡ batch_accepted n m
      → Run fresh r kc w
  unfolding handle_batch_event parse_batch authorize_batch
  handle-Run fresh r none w n m q = ground arith
  handle-Run fresh r (some ctx) w n m q = elim (Option-cases (parse_ingest_batch json r.body)) [
    | inl e ↦ ground (arith, e, q)
    | inr (es, e) ↦ record {
      context = ctx;
      given = refl;
      parsed = es;
      body = e;
      size = ground (arith, e, q);
      same = ground (arith, e, q);
    }
  ]

  -- What a batch stands for that is answered with `n` accepted and `m` failed events.
  pub record BatchServed (fresh : ℕ → Fresh) (r : Request) (kc : Option KeyContext)
      (w : World redis) (n m : ℕ) : Type 0 where
    pub context : KeyContext
    pub given : kc ≡ some context
    pub parsed : List UsageEvent
    pub body : parse_ingest_batch json r.body ≡ some parsed
    pub size : length parsed ≤ h.max_batch_size
    pub counted : n + m ≡ length parsed
    pub some_accepted : 1 ≤ n
    pub accepted : List UsageEvent
    pub picked : Sublistᴰ accepted (enrich_all context fresh 0 parsed)
    pub scoped : All (IsScoped context) accepted
    pub number : n ≡ length accepted
    pub handed :
        (handle_batch_event redis json h fresh r kc w).1.published
        ≡ w.published ++ batch_publication context accepted

  -- An accepted batch answers for each event of its body, of at most the configured number: `n` of
  -- them, one at least, are accepted and the others failed. The accepted ones are taken in their
  -- order from the events enriched with the authenticated context, carry its tenant, source and key,
  -- and go to Kafka in one call under its organization's partition key, if a publish function is
  -- configured.
  pub handle-BatchServed :
      (fresh : ℕ → Fresh) (r : Request) (kc : Option KeyContext) (w : World redis) (n m : ℕ)
      → (handle_batch_event redis json h fresh r kc w).0 ≡ batch_accepted n m
      → BatchServed fresh r kc w n m
  unfolding run_batch
  handle-BatchServed fresh r kc w n m q =
      let run = handle-Run fresh r kc w n m q in
      let es = enrich_all run.context fresh 0 run.parsed in
      let o = outcome es w in
      let (a, b, c, d) =
        publish_batch-served run.context o.0 (record w { store = o.1 }) n m
          (ap (λ (x : Response × World redis). x.0) (sym run.same) ∙ q) in
      let (picked, known) =
        process_batch_events-accepted redis h.bloom_num_shards (org_check es w).0 (eu_check es w).0
          es (eu_check es w).1 in
      let counts =
        process_batch_events-IsCounted redis h.bloom_num_shards (org_check es w).0 (eu_check es w).0
          es (eu_check es w).1 in
      record {
        context = run.context;
        given = run.given;
        parsed = run.parsed;
        body = run.body;
        size = run.size;
        counted = omega (arith, a, b, counts.all, length-enrich_all run.context fresh 0 run.parsed);
        some_accepted = c;
        accepted = o.0.accepted;
        picked = picked;
        scoped =
            All-Sublistᴰ (IsScoped run.context) picked
              (enrich_all-IsScoped run.context fresh 0 run.parsed);
        number = a;
        handed = ap (λ (x : Response × World redis). x.1.published) run.same ∙ d;
      }
