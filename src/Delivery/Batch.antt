-- ===== src/Delivery/Batch.antt =====
-- StoredBatch (apps/listener/batch_delivery.py): what a stream entry holds, and its checks.
use Prim.Native.Char.{code}
use brand_sniper_monorepo.Prelude.{
  ℕ, String, Bool, true, false, not, ◌&&◌, ◌||◌, List, [], ◌∷◌, Option, none, some, if◌then◌else◌,
  leb, nat_beq, string_eq, ◌==◌, ◌≡◌, refl,
}
use brand_sniper_monorepo.Prelude.Json.{
  Json, text, array, object, JsonList, no_values, value_then, JsonFields, no_fields, field_then,
  field_of,
}
use brand_sniper_monorepo.Prelude.Result.{Result, ok, err, value_error, ◌>>=◌}

pub record StoredBatch : Type 0 where
  pub record_id : ℕ
  pub batch_id : String
  pub venue : String
  pub ticks : List JsonFields
  pub feed_events : List JsonFields

abbrev pub array_of : List JsonFields → JsonList
array_of [] = no_values
array_of (o ∷ os) = value_then (object o) (array_of os)

-- The items of a list of objects; ValueError where one is not an object.
abbrev object_then : Json → Result (List JsonFields) → Result (List JsonFields)
object_then (object o) rest = do os ← rest; ok (o ∷ os)
object_then _ rest = err value_error

abbrev pub objects_in : JsonList → Result (List JsonFields)
objects_in no_values = ok []
objects_in (value_then v vs) = object_then v (objects_in vs)

abbrev is_empty : List JsonFields → Bool
is_empty [] = true
is_empty (_ ∷ _) = false

-- `StoredBatch.payload`
unfoldable pub payload_of : StoredBatch → JsonFields
payload_of b = field_then "batch_id" (text b.batch_id) (
    field_then "venue" (text b.venue) (
      field_then "ticks" (array (array_of b.ticks)) (
        if is_empty b.feed_events
        then no_fields
        else field_then "feed_events" (array (array_of b.feed_events)) no_fields)))

-- `str.strip` leaves nothing: white space of ASCII text.
abbrev is_white : ℕ → Bool
is_white c = nat_beq c 32 || (leb 9 c && leb c 13) || (leb 28 c && leb c 31)

unfoldable pub is_blank : String → Bool
is_blank String.[] = true
is_blank (String.◌∷◌ c s) = is_white (code c) && is_blank s

abbrev required : Option Json → Result Json
required none = err value_error
required (some v) = ok v

abbrev objects_of : Json → Result (List JsonFields)
objects_of (array vs) = objects_in vs
objects_of _ = err value_error

abbrev objects_or_empty : Option Json → Result (List JsonFields)
objects_or_empty none = ok []
objects_or_empty (some v) = objects_of v

abbrev checked_batch_id : (String → Bool) → Json → Result String
checked_batch_id is_uuid (text id) = if not (id == "") && is_uuid id then ok id else err value_error
checked_batch_id is_uuid _ = err value_error

abbrev checked_venue : Json → Result String
checked_venue (text venue) = if is_blank venue then err value_error else ok venue
checked_venue _ = err value_error

abbrev either_field : Option Json → Option Json → Option Json
either_field none other = other
either_field (some v) other = some v

-- `StoredBatch.deserialize` of the decoded payload; a missing key (KeyError) and the ValueErrors are
-- one error, since callers treat them alike.
unfoldable pub from_payload : (String → Bool) → ℕ → JsonFields → Result StoredBatch
from_payload is_uuid record_id stored = do
  batch_id_value ← required (field_of "batch_id" stored)
  venue_value ← required (either_field (field_of "venue" stored) (field_of "source" stored))
  ticks_value ← required (field_of "ticks" stored)
  batch_id ← checked_batch_id is_uuid batch_id_value
  venue ← checked_venue venue_value
  ticks ← objects_of ticks_value
  feed_events ← objects_or_empty (field_of "feed_events" stored)
  ok (record {
    record_id = record_id;
    batch_id = batch_id;
    venue = venue;
    ticks = ticks;
    feed_events = feed_events;
  })

abbrev object_or_error : Option Json → Result JsonFields
object_or_error (some (object fields)) = ok fields
object_or_error _ = err value_error

unfoldable pub deserialize :
    (String → Option Json) → (String → Bool) → ℕ → String → Result StoredBatch
deserialize loads is_uuid record_id payload = do
  stored ← object_or_error (loads payload)
  from_payload is_uuid record_id stored

unfoldable pub serialize : (Json → String) → StoredBatch → String
serialize dumps b = dumps (object (payload_of b))

objects_in_array : (os : List JsonFields) → objects_in (array_of os) ≡ ok os
objects_in_array [] = refl
objects_in_array (o ∷ os) = rw (objects_in_array os) refl

from_payload-payload_of :
    (is_uuid : String → Bool) (r : ℕ) (id venue : String) (ticks events : List JsonFields)
    → is_uuid id ≡ true
    → (id == "") ≡ false
    → is_blank venue ≡ false
    → let b : StoredBatch = record {
      record_id = r;
      batch_id = id;
      venue = venue;
      ticks = ticks;
      feed_events = events;
    } in
      from_payload is_uuid r (payload_of b) ≡ ok b
unfolding from_payload payload_of field_of
from_payload-payload_of is_uuid r id venue ticks [] uuid some_id named =
    rw (uuid, some_id, named, objects_in_array ticks) refl
from_payload-payload_of is_uuid r id venue ticks (e ∷ es) uuid some_id named =
    rw (uuid, some_id, named, objects_in_array ticks, objects_in_array es) refl

-- A stored batch comes back as it was, where the JSON text of its payload decodes to that payload
-- and the batch has a UUID as its ID and a venue that is not blank.
pub deserialize-serialize :
    (dumps : Json → String) (loads : String → Option Json) (is_uuid : String → Bool)
    (b : StoredBatch)
    → loads (dumps (object (payload_of b))) ≡ some (object (payload_of b))
    → is_uuid b.batch_id ≡ true
    → (b.batch_id == "") ≡ false
    → is_blank b.venue ≡ false
    → deserialize loads is_uuid b.record_id (serialize dumps b) ≡ ok b
unfolding deserialize serialize
deserialize-serialize dumps loads is_uuid b decodes uuid some_id named = rw decodes (
    from_payload-payload_of is_uuid b.record_id b.batch_id b.venue b.ticks b.feed_events uuid
      some_id named)
