-- ===== src/Delivery/Streams/Kept.antt =====
-- A delivered batch leaves the pending stream, and one that was not is kept among the dead letters.
use brand_sniper_monorepo.Prelude.{
  ℕ, ◌≡◌, refl, ap, String, Bool, true, false, [], ◌∷◌, ◌++◌, Option, some, inl, inr, ◌⊎◌,
  string_eq, ◌==◌,
}
use brand_sniper_monorepo.Prelude.Result.{Result, ok}
use brand_sniper_monorepo.Prelude.Json.{Json, object}
use brand_sniper_monorepo.Delivery.Batch.{
  payload_of, StoredBatch, is_blank, deserialize, serialize, deserialize-serialize,
}
use brand_sniper_monorepo.Delivery.Send.{Sent, Ending, delivered, exhausted, rejected, crashed}
use brand_sniper_monorepo.Delivery.Streams.{
  Entry, BatchStreams, xdel, settle, ending_of, read_payload, reading_of, with_record_id, batch,
  read_entry, deliver_stored_batch, dead_letter, acknowledge,
}

-- What the texts and the batch must be for its dead letter to be read back.
pub record IsReadable (dumps : Json → String) (loads : String → Option Json)
    (is_uuid : String → Bool) (b : StoredBatch) : Type 0 where
  pub decodes : loads (dumps (object (payload_of b))) ≡ some (object (payload_of b))
  pub some_text : (dumps (object (payload_of b)) == "") ≡ false
  pub uuid : is_uuid b.batch_id ≡ true
  pub some_id : (b.batch_id == "") ≡ false
  pub named : is_blank b.venue ≡ false

module _ (dumps : Json → String) (loads : String → Option Json) (is_uuid : String → Bool) where
  dead_letter_entry : StoredBatch → String → ℕ → Entry
  dead_letter_entry b error id = record {
    id = id;
    fields = ("payload", serialize dumps b) ∷ ("last_error", error) ∷ [];
  }

  read_payload-batch :
      (id : ℕ) (text : String) (b : StoredBatch)
      → deserialize loads is_uuid id text ≡ ok b
      → read_payload dumps loads is_uuid id (some text) ≡ batch b
  read_payload-batch id text b h = ap (reading_of text) h

  read-dead_letter_entry :
      (b : StoredBatch) (error : String) (id : ℕ)
      → IsReadable dumps loads is_uuid b
      → read_entry dumps loads is_uuid (dead_letter_entry b error id) ≡ batch (with_record_id id b)
  unfolding read_entry dead_letter_entry serialize payload_of
  read-dead_letter_entry b error id readable =
      let text = dumps (object (payload_of b)) in
      let round : deserialize loads is_uuid id text ≡ ok (with_record_id id b) =
        deserialize-serialize dumps loads is_uuid (with_record_id id b) readable.decodes
          readable.uuid readable.some_id readable.named in
      rw readable.some_text (read_payload-batch id text (with_record_id id b) round)

  pub DeadLettered : StoredBatch → BatchStreams → BatchStreams → Type 0
  DeadLettered b s after =
      (entry : Entry) × (after.dead_letters ≡ s.dead_letters ++ entry ∷ [])
      × (read_entry dumps loads is_uuid entry ≡ batch (with_record_id s.next_id b))

  dead_letter-DeadLettered :
      (b : StoredBatch) (error : String) (s : BatchStreams)
      → IsReadable dumps loads is_uuid b
      → DeadLettered b s (dead_letter dumps loads is_uuid b error s)
  unfolding DeadLettered dead_letter dead_letter_entry
  dead_letter-DeadLettered b error s readable =
      (dead_letter_entry b error s.next_id, refl, read-dead_letter_entry b error s.next_id readable)

  settle_lem :
      (b : StoredBatch) (ending : Ending) (error : String) (s : BatchStreams)
      → IsReadable dumps loads is_uuid b
      → let (after, is_delivered) = settle dumps loads is_uuid b ending error s in
        (after.pending ≡ xdel b.record_id s.pending)
        × (after.malformed ≡ s.malformed)
        × ((is_delivered ≡ true) × (ending ≡ delivered) × (after.dead_letters ≡ s.dead_letters)
            ⊎ (is_delivered ≡ false) × DeadLettered b s after)
  unfolding dead_letter acknowledge
  settle_lem b delivered error s readable = (refl, refl, inl (refl, refl, refl))
  settle_lem b exhausted error s readable =
      (refl, refl, inr (refl, dead_letter-DeadLettered b error s readable))
  settle_lem b rejected error s readable =
      (refl, refl, inr (refl, dead_letter-DeadLettered b error s readable))
  settle_lem b crashed error s readable =
      (refl, refl, inr (refl, dead_letter-DeadLettered b error s readable))

  -- A delivery takes the batch out of the pending stream and touches no malformed entry. Where it
  -- reports success, the send was delivered and the dead letters stay as they are. Otherwise one dead
  -- letter is added, from which the same batch is read back, for a batch that can be read back at all.
  pub deliver_stored_batch_lem :
      (b : StoredBatch) (sent : Result Sent) (error : Ending → String) (s : BatchStreams)
      → IsReadable dumps loads is_uuid b
      → let (after, is_delivered) = deliver_stored_batch dumps loads is_uuid b sent error s in
        (after.pending ≡ xdel b.record_id s.pending)
        × (after.malformed ≡ s.malformed)
        × ((is_delivered ≡ true)
              × (ending_of sent ≡ delivered)
              × (after.dead_letters ≡ s.dead_letters)
            ⊎ (is_delivered ≡ false) × DeadLettered b s after)
  unfolding deliver_stored_batch
  deliver_stored_batch_lem b sent error s readable =
      settle_lem b (ending_of sent) (error (ending_of sent)) s readable
