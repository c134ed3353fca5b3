-- ===== src/Delivery/Streams.antt =====
-- The Redis streams of one venue's batches: RedisBatchStore and deliver_stored_batch
-- (apps/listener/batch_delivery.py) and the replay loop (apps/listener/replay_batches.py). An entry's
-- ID is a number that grows; `loads`, `dumps` and `is_uuid` are the standard library's.
pub mod Kept
use brand_sniper_monorepo.Prelude.{
  ℕ, zero, suc, ◌+◌, ◌≡◌, refl, String, Bool, true, false, not, List, [], ◌∷◌, ◌++◌, Option, none,
  some, if◌then◌else◌, nat_beq, leb, keep, length, string_eq, str_eq, ◌==◌, map,
}
use brand_sniper_monorepo.Prelude.Dict.{Dict, lookup}
use brand_sniper_monorepo.Prelude.Result.{
  Result, ok, err, Error, value_error, ◌>>=◌, ◌>>◌, raise_if,
}
use brand_sniper_monorepo.Prelude.Json.{Json, JsonFields}
use brand_sniper_monorepo.Delivery.Batch.{StoredBatch, deserialize, serialize}
use brand_sniper_monorepo.Delivery.Send.{Sent, Ending, delivered, exhausted, rejected, crashed}

pub record Entry : Type 0 where
  pub id : ℕ
  pub fields : Dict String String

pub record BatchStreams : Type 0 where
  pub next_id : ℕ
  pub pending : List Entry
  pub dead_letters : List Entry
  pub malformed : List Entry

-- XADD and XDEL of one stream.
abbrev pub xadd : ℕ → Dict String String → List Entry → List Entry
xadd id fields entries = entries ++ record { id = id; fields = fields } ∷ []

abbrev pub xdel : ℕ → List Entry → List Entry
xdel id entries = keep (λ e. not (nat_beq e.id id)) entries

abbrev pub with_record_id : ℕ → StoredBatch → StoredBatch
with_record_id id b = record {
  record_id = id;
  batch_id = b.batch_id;
  venue = b.venue;
  ticks = b.ticks;
  feed_events = b.feed_events;
}

-- What `_iter_stream` makes of an entry: a batch, or an entry to quarantine with its payload.
pub data Reading : Type 0 where
  batch : StoredBatch → Reading
  quarantined : String → Reading

-- A send that was refused raised its ValueError.
abbrev pub ending_of : Result Sent → Ending
ending_of (err e) = crashed
ending_of (ok sent) = sent.ending

abbrev pub reading_of : String → Result StoredBatch → Reading
reading_of payload (ok b) = batch b
reading_of payload (err e) = quarantined payload

module _ (dumps : Json → String) (loads : String → Option Json) (is_uuid : String → Bool) where
  -- `RedisBatchStore.add`; the batch has its ID (a new UUID where the caller names none).
  unfoldable pub add_batch : StoredBatch → BatchStreams → BatchStreams × StoredBatch
  add_batch b s = (
    record {
      next_id = suc s.next_id;
      pending = xadd s.next_id (("payload", serialize dumps b) ∷ []) s.pending;
      dead_letters = s.dead_letters;
      malformed = s.malformed;
    },
    with_record_id s.next_id b,
  )

  unfoldable pub acknowledge : ℕ → BatchStreams → BatchStreams
  acknowledge record_id s = record {
    next_id = s.next_id;
    pending = xdel record_id s.pending;
    dead_letters = s.dead_letters;
    malformed = s.malformed;
  }

  unfoldable pub acknowledge_dead_letter : ℕ → BatchStreams → BatchStreams
  acknowledge_dead_letter record_id s = record {
    next_id = s.next_id;
    pending = s.pending;
    dead_letters = xdel record_id s.dead_letters;
    malformed = s.malformed;
  }

  -- `RedisBatchStore.dead_letter`: one transaction; `error` is the text that is kept.
  unfoldable pub dead_letter : StoredBatch → String → BatchStreams → BatchStreams
  dead_letter b error s = record {
    next_id = suc s.next_id;
    pending = xdel b.record_id s.pending;
    dead_letters =
        xadd s.next_id (("payload", serialize dumps b) ∷ ("last_error", error) ∷ []) s.dead_letters;
    malformed = s.malformed;
  }

  abbrev pub settle : StoredBatch → Ending → String → BatchStreams → BatchStreams × Bool
  settle b delivered error s = (acknowledge b.record_id s, true)
  settle b exhausted error s = (dead_letter b error s, false)
  settle b rejected error s = (dead_letter b error s, false)
  settle b crashed error s = (dead_letter b error s, false)

  -- `deliver_stored_batch`: a batch that was sent is acknowledged; any failure of the send puts it
  -- among the dead letters, with the text of its error.
  unfoldable pub deliver_stored_batch :
      StoredBatch → Result Sent → (Ending → String) → BatchStreams → BatchStreams × Bool
  deliver_stored_batch b sent error s = settle b (ending_of sent) (error (ending_of sent)) s

  -- `fields.get("payload") or ...`: an empty payload is none.
  abbrev pub some_payload : Option String → Option String
  some_payload none = none
  some_payload (some payload) = if payload == "" then none else some payload

  abbrev pub read_payload : ℕ → Option String → Reading
  read_payload id none = quarantined ""
  read_payload id (some payload) = reading_of payload (deserialize loads is_uuid id payload)

  unfoldable pub read_entry : Entry → Reading
  read_entry e = read_payload e.id (some_payload (lookup "payload" e.fields))
