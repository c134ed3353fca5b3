-- ===== src/Delivery/Replay.antt =====
-- Reading a stream page by page (RedisBatchStore._iter_stream of apps/listener/batch_delivery.py) and
-- the replay of the dead letters (apps/listener/replay_batches.py). The pages run on fuel, one for
-- each entry and one more; each page but the last passes a hundred entries.
use brand_sniper_monorepo.Prelude.{
  ℕ, zero, suc, ◌+◌, ◌≤◌, ◌<◌, ◌≡◌, String, Bool, true, false, List, [], ◌∷◌, Option, none, some,
  if◌then◌else◌, ltb, keep, take, length,
}
use brand_sniper_monorepo.Prelude.Result.{Result, ok, value_error, ◌>>◌, raise_if}
use brand_sniper_monorepo.Prelude.Json.{Json}
use brand_sniper_monorepo.Delivery.Batch.{StoredBatch}
use brand_sniper_monorepo.Delivery.Send.{Sent, Ending, delivered}
use brand_sniper_monorepo.Delivery.Streams.{
  Entry, BatchStreams, xadd, xdel, Reading, batch, quarantined, read_entry, acknowledge_dead_letter,
  ending_of,
}

pub record ReplayResult : Type 0 where
  pub attempted : ℕ
  pub succeeded : ℕ
  pub failed : ℕ

-- XRANGE of the entries after an ID, at most `count` of them; from "-" on for none.
abbrev is_after : Option ℕ → Entry → Bool
is_after none e = true
is_after (some last) e = ltb last e.id

abbrev pub xrange : Option ℕ → ℕ → List Entry → List Entry
xrange start count entries = take count (keep (is_after start) entries)

-- `_quarantine_malformed` of a dead letter: one transaction; `error` is the text that is kept.
unfoldable pub quarantine : String → ℕ → String → String → String → BatchStreams → BatchStreams
quarantine source_key record_id record_text payload error s = record s {
  next_id = suc s.next_id;
  dead_letters = xdel record_id s.dead_letters;
  malformed =
      xadd s.next_id
        (("source_stream", source_key)
          ∷ ("source_record_id", record_text)
          ∷ ("payload", payload)
          ∷ ("last_error", error)
          ∷ [])
        s.malformed;
}

-- The replay's state, and whether its loop goes on.
pub record Replay : Type 0 where
  pub streams : BatchStreams
  pub result : ReplayResult
  pub goes_on : Bool

abbrev pub is_delivered : Ending → Bool
is_delivered delivered = true
is_delivered _ = false

abbrev last_id : List Entry → Option ℕ → Option ℕ
last_id [] start = start
last_id (e ∷ es) start = last_id es (some e.id)

module _ (loads : String → Option Json) (dumps : Json → String) (is_uuid : String → Bool)
    (id_text : ℕ → String) (source_key error_text : String) (send : StoredBatch → Result Sent)
    (limit : ℕ) where
  -- The body of the replay's loop.
  unfoldable pub replay_batch : StoredBatch → Replay → Replay
  replay_batch b r =
      let attempted = suc r.result.attempted in
      if is_delivered (ending_of (send b))
      then record {
        streams = acknowledge_dead_letter dumps loads is_uuid b.record_id r.streams;
        result = record r.result { attempted = attempted; succeeded = suc r.result.succeeded };
        goes_on = ltb attempted limit;
      }
      else record {
        streams = r.streams;
        result = record r.result { attempted = attempted; failed = suc r.result.failed };
        goes_on = ltb attempted limit;
      }

  abbrev pub replay_reading : Entry → Reading → Replay → Replay
  replay_reading e (batch b) r = replay_batch b r
  replay_reading e (quarantined payload) r = record r {
    streams = quarantine source_key e.id (id_text e.id) payload error_text r.streams;
  }

  unfoldable pub replay_page : List Entry → Replay → Replay
  unfolding replay_batch
  replay_page [] r = r
  replay_page (e ∷ es) r =
      let next = replay_reading e (read_entry dumps loads is_uuid e) r in
      if r.goes_on then replay_page es next else r

  -- `_iter_stream` of the dead letters, with the loop's body at each yield.
  unfoldable pub replay_pages : ℕ → ℕ → Option ℕ → Replay → Replay
  unfolding replay_page
  replay_pages zero page_size start r = r
  replay_pages (suc fuel) page_size start r =
      let entries = xrange start page_size r.streams.dead_letters in
      let next = replay_page entries r in
      if ltb (length entries) page_size
      then next
      else if next.goes_on
      then replay_pages fuel page_size (last_id entries start) next
      else next

  abbrev fresh_replay : BatchStreams → Replay
  fresh_replay s = record {
    streams = s;
    result = record { attempted = 0; succeeded = 0; failed = 0 };
    goes_on = true;
  }

  -- `replay`, on the dead letters in pages of 100.
  unfoldable pub replay : BatchStreams → Result (BatchStreams × ReplayResult)
  unfolding replay_pages
  replay s = do
    raise_if (ltb limit 1) value_error
    ok (
      (replay_pages (suc (length s.dead_letters)) 100 none (fresh_replay s)).streams,
      (replay_pages (suc (length s.dead_letters)) 100 none (fresh_replay s)).result,
    )

  -- Every attempt is counted once, and a loop that goes on is below the limit.
  pub record IsCounted (r : Replay) : Type 0 where
    pub sum : r.result.attempted ≡ r.result.succeeded + r.result.failed
    pub bound : r.result.attempted ≤ limit
    pub more : r.goes_on ≡ true → r.result.attempted < limit
