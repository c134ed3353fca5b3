-- ===== src/Scenarios/Posts.antt =====
-- A batch that is stored, sent twice in vain, and kept.
use brand_sniper_monorepo.Prelude.{
  ℕ, ◌≤◌, ◌<◌, if◌then◌else◌, nat_eq, ◌≡◌, ◌⊎◌, refl, String, Bool, true, false, [], ◌∷◌, Option,
  none, some, string_eq, ◌==◌,
}
use brand_sniper_monorepo.Prelude.Result.{ok, err, value_error}
use brand_sniper_monorepo.Prelude.Json.{Json, no_fields, object}
use brand_sniper_monorepo.Delivery.Batch.{
  payload_of, StoredBatch, deserialize, serialize, deserialize-serialize, is_blank,
}
use brand_sniper_monorepo.Delivery.Send.{
  Answer, status, Sent, Ending, delivered, Tried, send_batch_with_retry, send_batch_with_retry_lem,
}
use brand_sniper_monorepo.Delivery.Streams.{BatchStreams, deliver_stored_batch, xdel, ending_of}
use brand_sniper_monorepo.Prelude.{List}
use brand_sniper_monorepo.Delivery.Streams.{Entry}
use brand_sniper_monorepo.Delivery.Streams.Kept.{IsReadable, DeadLettered, deliver_stored_batch_lem}

-- The backend answers 503, then 400.
abbrev refusing : ℕ → Answer
refusing attempt = if attempt == 1 then status 503 else status 400

abbrev five : ℕ
five = 5

abbrev half_second : ℕ
half_second = 500

abbrev eight_seconds : ℕ
eight_seconds = 8000

send_batch_with_retry_example :
    ((send_batch_with_retry refusing five half_second eight_seconds ≡ err value_error)
      × ((five ≡ 0) ⊎ (half_second ≡ 0) ⊎ (eight_seconds ≡ 0)))
    ⊎ ((1 ≤ five)
        × (0 < half_second)
        × (0 < eight_seconds)
        × (sent : Sent) × (send_batch_with_retry refusing five half_second eight_seconds ≡ ok sent)
        × Tried refusing 1 five sent)
send_batch_with_retry_example = send_batch_with_retry_lem refusing five half_second eight_seconds

abbrev stored : StoredBatch
stored = record {
  record_id = 3;
  batch_id = "6ba7b810-9dad-11d1-80b4-00c04fd430c8";
  venue = "skinport";
  ticks = no_fields ∷ [];
  feed_events = [];
}

abbrev json_text : String
json_text =
    "{\"batch_id\":\"6ba7b810-9dad-11d1-80b4-00c04fd430c8\",\"venue\":\"skinport\",\"ticks\":[{}]}"

-- What the JSON module makes of this one document and its text.
abbrev dumps : Json → String
dumps document = json_text

abbrev loads : String → Option Json
loads payload = if payload == json_text then some (object (payload_of stored)) else none

abbrev is_uuid : String → Bool
is_uuid id = id == "6ba7b810-9dad-11d1-80b4-00c04fd430c8"

not_blank : is_blank "skinport" ≡ false
unfolding is_blank
not_blank = refl

deserialize-serialize_example : deserialize loads is_uuid 3 (serialize dumps stored) ≡ ok stored
deserialize-serialize_example =
    deserialize-serialize dumps loads is_uuid stored refl refl refl not_blank

stored-IsReadable : IsReadable dumps loads is_uuid stored
stored-IsReadable = record {
  decodes = refl;
  some_text = refl;
  uuid = refl;
  some_id = refl;
  named = not_blank;
}

abbrev streams : BatchStreams
streams = record { next_id = 4; pending = []; dead_letters = []; malformed = [] }

abbrev last_error : Ending → String
last_error ending = "Backend returned HTTP 400"

deliver_stored_batch_example :
    let sent = send_batch_with_retry refusing five half_second eight_seconds in
    let (after, is_delivered) =
      deliver_stored_batch dumps loads is_uuid stored sent last_error streams in
    (after.pending ≡ xdel 3 [])
    × (after.malformed ≡ [])
    × ((is_delivered ≡ true) × (ending_of sent ≡ delivered) × (after.dead_letters ≡ [])
        ⊎ (is_delivered ≡ false) × DeadLettered dumps loads is_uuid stored streams after)
deliver_stored_batch_example =
    deliver_stored_batch_lem dumps loads is_uuid stored
      (send_batch_with_retry refusing five half_second eight_seconds) last_error streams
      stored-IsReadable

abbrev old_stream : Option (List Entry)
old_stream = some (record { id = 1; fields = ("payload", json_text) ∷ [] } ∷ [])
