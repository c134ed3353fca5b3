-- ===== src/Ingestion/Ledger.antt =====
-- A batch is stored once, however often it is sent.
use brand_sniper_monorepo.Prelude.{
  ℕ, List, [], ◌∷◌, ◌≡◌, refl, sym, subst, ap, ◌∙◌, String, true, Option, none, some, if◌then◌else◌,
  arith, Bool-cases, inl, inr, string_eq, eq_iff, ◌==◌,
}
use brand_sniper_monorepo.Prelude.Dict.{Dict, lookup, insert, lookup-insert}
use brand_sniper_monorepo.Prelude.Result.{Result, ok, err, conflict}
use brand_sniper_monorepo.Ingestion.{
  BulkPayload, TradePayload, Backend, ingest_simulated_trade, register_id, Answer, duplicate,
  process_bulk_ingestion, register_ingestion_batch, committed, register_as, is_blank_payload,
}

pub data Request (E : Type 0) : Type 0 where
  bulk_request : BulkPayload E → Request E
  trade_request : TradePayload → ℕ → Request E

module _ (item_type_of : String → String) (E : Type 0) (digest : BulkPayload E → String) where
  registers_as :
      (q : BulkPayload E) (batches : Dict String String) (id : String)
      → q.batch_id ≡ some id
      → register_ingestion_batch item_type_of digest q batches
        ≡ register_as item_type_of digest id (digest q) batches (lookup id batches)
  unfolding register_ingestion_batch
  registers_as q batches id named = ap (λ o. register_id item_type_of digest q o batches) named

  processed_as :
      (q : BulkPayload E) (b : Backend E) (id : String)
      → q.batch_id ≡ some id
      → process_bulk_ingestion item_type_of digest q b
        ≡ committed item_type_of digest q b (
            register_as item_type_of digest id
              (digest q)
              b.database.batches
              (lookup id b.database.batches))
  unfolding process_bulk_ingestion
  processed_as q b id named =
      ap (committed item_type_of digest q b) (registers_as q b.database.batches id named)

  abbrev EnteredAs : String → String → Backend E × Result Answer → Type 0
  EnteredAs id sum (after, ok answer) = lookup id after.database.batches ≡ some sum
  EnteredAs id sum (after, err e) = Unit

  registered-EnteredAs :
      (p : BulkPayload E) (b : Backend E) (id sum : String)
      → EnteredAs id sum
          (committed item_type_of digest p b (ok (insert id sum b.database.batches, true)))
  registered-EnteredAs p b id sum =
      let found : lookup id (insert id sum b.database.batches) ≡ some sum =
        lookup-insert id id sum b.database.batches ∙ ground (arith, eq_iff id id) in
      elim (Bool-cases (is_blank_payload item_type_of digest p)) [
        | inl e ↦ rw e found
        | inr e ↦ rw e found
      ]

  committed-EnteredAs :
      (p : BulkPayload E) (b : Backend E) (id sum : String) (o : Option String)
      → lookup id b.database.batches ≡ o
      → EnteredAs id sum (
          committed item_type_of digest p b
            (register_as item_type_of digest id sum b.database.batches o))
  committed-EnteredAs p b id sum none h = registered-EnteredAs p b id sum
  committed-EnteredAs p b id sum (some held) h = elim (Bool-cases (held == sum)) [
    | inl e ↦ rw e (h ∙ ap (λ s. some s) ((eq_iff held sum).0 e))
    | inr e ↦ rw e tt
  ]

  -- After a batch was accepted, its ledger entry stands.
  ledger_after :
      (p : BulkPayload E) (b after : Backend E) (answer : Answer) (id : String)
      → p.batch_id ≡ some id
      → process_bulk_ingestion item_type_of digest p b ≡ (after, ok answer)
      → lookup id after.database.batches ≡ some (digest p)
  ledger_after p b after answer id named h =
      subst (EnteredAs id (digest p)) (sym (processed_as p b id named) ∙ h)
        (committed-EnteredAs p b id (digest p) (lookup id b.database.batches) refl)

  known-digest :
      (q : BulkPayload E) (b : Backend E) (id held sum : String)
      → committed item_type_of digest q b
          (register_as item_type_of digest id sum b.database.batches (some held))
        ≡ (b, (if held == sum then ok duplicate else err conflict))
  known-digest q b id held sum = elim (Bool-cases (held == sum)) [
    | inl e ↦ rw e refl
    | inr e ↦ rw e refl
  ]

  -- What a payload under an ID that is in the ledger does.
  known_batch :
      (q : BulkPayload E) (b : Backend E) (id held : String)
      → q.batch_id ≡ some id
      → lookup id b.database.batches ≡ some held
      → process_bulk_ingestion item_type_of digest q b
        ≡ (b, (if held == digest q then ok duplicate else err conflict))
  known_batch q b id held named h =
      processed_as q b id named
      ∙ ap
          (λ o.
            committed item_type_of digest q b
              (register_as item_type_of digest id (digest q) b.database.batches o))
          h
      ∙ known-digest q b id held (digest q)

  -- Where a new batch is written, the ledger is the one given.
  store_batches :
      (q : BulkPayload E) (b : Backend E) (batches : Dict String String)
      → (committed item_type_of digest q b (ok (batches, true))).0.database.batches ≡ batches
  store_batches q b batches = elim (Bool-cases (is_blank_payload item_type_of digest q)) [
    | inl e ↦ rw e refl
    | inr e ↦ rw e refl
  ]

  registered_keeps :
      (q : BulkPayload E) (b : Backend E) (named id sum held : String) (o : Option String)
      → lookup named b.database.batches ≡ o
      → lookup id b.database.batches ≡ some held
      → lookup id
          (committed item_type_of digest q b
            (register_as item_type_of digest named sum b.database.batches o)).0.database.batches
        ≡ some held
  registered_keeps q b named id sum held none new h =
      ap (lookup id) (store_batches q b (insert named sum b.database.batches))
      ∙ lookup-insert named id sum b.database.batches
      ∙ elim (Bool-cases (named == id)) [
        | inl e ↦ absurd (other_id ((eq_iff named id).0 e))
        | inr e ↦ rw e h
      ]
    where
      other_id : named ≡ id → ⊥
      other_id e = ground (arith, sym new ∙ ap (λ k. lookup k b.database.batches) e ∙ h)
  registered_keeps q b named id sum held (some other) known h = elim (Bool-cases (other == sum)) [
    | inl e ↦ rw e h
    | inr e ↦ rw e h
  ]

  process_keeps :
      (q : BulkPayload E) (b : Backend E) (id held : String)
      → lookup id b.database.batches ≡ some held
      → lookup id (process_bulk_ingestion item_type_of digest q b).0.database.batches ≡ some held
  unfolding process_bulk_ingestion register_ingestion_batch
  process_keeps q b id held h = by_id q.batch_id
    where
      by_id :
          (o : Option String)
          → lookup id
              (committed item_type_of digest q b
                (register_id item_type_of digest q o b.database.batches)).0.database.batches
            ≡ some held
      by_id none = ap (lookup id) (store_batches q b b.database.batches) ∙ h
      by_id (some named) =
          registered_keeps q b named id (digest q) held (lookup named b.database.batches) refl h

  -- What the backend is sent, and its state after any number of requests, refused ones included.
  abbrev pub serve : Request E → Backend E → Backend E
  serve (bulk_request payload) b = (process_bulk_ingestion item_type_of digest payload b).0
  serve (trade_request payload day) b = (ingest_simulated_trade item_type_of payload day b).0

  abbrev pub serve_all : List (Request E) → Backend E → Backend E
  serve_all [] b = b
  serve_all (request ∷ requests) b = serve_all requests (serve request b)

  serve_all_keeps :
      (requests : List (Request E)) (b : Backend E) (id held : String)
      → lookup id b.database.batches ≡ some held
      → lookup id (serve_all requests b).database.batches ≡ some held
  unfolding ingest_simulated_trade
  serve_all_keeps [] b id held h = h
  serve_all_keeps (bulk_request q ∷ requests) b id held h =
      serve_all_keeps requests (serve (bulk_request q) b) id held (process_keeps q b id held h)
  serve_all_keeps (trade_request p day ∷ requests) b id held h =
      serve_all_keeps requests (serve (trade_request p day) b) id held h

  -- Once a batch with an ID was accepted, and whatever batches and trades were sent since, a payload
  -- under that ID changes nothing: it is reported as a duplicate where its digest is the batch's, and as
  -- a conflict where it is another.
  pub process_bulk_ingestion-again :
      (p q : BulkPayload E) (b after : Backend E) (answer : Answer) (id : String)
      (requests : List (Request E))
      → p.batch_id ≡ some id
      → q.batch_id ≡ some id
      → process_bulk_ingestion item_type_of digest p b ≡ (after, ok answer)
      → process_bulk_ingestion item_type_of digest q (serve_all requests after)
        ≡ (serve_all requests after, (if digest p == digest q then ok duplicate else err conflict))
  process_bulk_ingestion-again p q b after answer id requests named again h =
      known_batch q (serve_all requests after) id (digest p) again
        (serve_all_keeps requests after id (digest p) (ledger_after p b after answer id named h))
