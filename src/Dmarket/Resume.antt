-- ===== src/Dmarket/Resume.antt =====
-- The resume point of apps/listener/scrapers/dmarket.py: `resume_document` writes it,
-- parse_resume_document reads it and `resume_from` starts a poller from it. From the JSON module there
-- are `dumps`, `loads`, the text of an int and the int of a text; `as_text` is Python's `str`.
pub mod Restart
pub mod Gaps
use brand_sniper_monorepo.Prelude.{
  ℕ, ◌+◌, ◌-◌, ◌<◌, ◌≤◌, max, String, Bool, true, false, List, [], ◌∷◌, ◌++◌, Option, none, some,
  if◌then◌else◌, ltb, leb, string_eq, nat_eq, ◌==◌,
}
use brand_sniper_monorepo.Prelude.Texts.{string_ltb}
use brand_sniper_monorepo.Prelude.Dict.{Dict, insert}
use brand_sniper_monorepo.Prelude.Json.{
  Json, null, bool, number, text, array, object, JsonList, no_values, value_then, JsonFields,
  no_fields, field_then, field_of,
}
use brand_sniper_monorepo.Dmarket.{Ids, CatchUpGap, ResumePoint, ListingPoller, resume_overlap_ms}
use brand_sniper_monorepo.Dmarket.Poller.{remember}

-- `sorted` of a set of texts.
unfoldable pub insert_id : String → Ids → Ids
insert_id id [] = (id, tt) ∷ []
insert_id id ((k, _) ∷ ids) =
    if string_ltb k id then (k, tt) ∷ insert_id id ids else (id, tt) ∷ (k, tt) ∷ ids

unfoldable pub sort_ids : Ids → Ids
sort_ids [] = []
sort_ids ((id, _) ∷ ids) = insert_id id (sort_ids ids)

abbrev pub array_of_ids : Ids → JsonList
array_of_ids [] = no_values
array_of_ids ((id, _) ∷ ids) = value_then (text id) (array_of_ids ids)

-- The recorded listings near the newest one.
abbrev pub recorded_since : ℕ → Dict String ℕ → Dict String ℕ
recorded_since oldest [] = []
recorded_since oldest ((id, created) ∷ recorded) =
    let rest = recorded_since oldest recorded in
    if leb oldest created then (id, created) ∷ rest else rest

abbrev pub recorded_near : Option ℕ → Dict String ℕ → Dict String ℕ
recorded_near none recorded = recorded
recorded_near (some newest) recorded = recorded_since (newest - resume_overlap_ms) recorded

-- What writes an int as text is an argument too.
module _ (int_text : ℕ → String) where
  -- `CatchUpGap.to_json`
  abbrev pub gap_json : CatchUpGap → JsonFields
  gap_json gap = field_then "cursor" (text gap.cursor) (
      field_then "until_ms" (number (int_text gap.until_ms))
        (field_then "skip_ids" (array (array_of_ids (sort_ids gap.skip_ids))) no_fields))

  abbrev pub array_of_gaps : List CatchUpGap → JsonList
  array_of_gaps [] = no_values
  array_of_gaps (gap ∷ gaps) = value_then (object (gap_json gap)) (array_of_gaps gaps)

  abbrev pub recorded_json : Dict String ℕ → JsonFields
  recorded_json [] = no_fields
  recorded_json ((id, created) ∷ recorded) =
      field_then id (number (int_text created)) (recorded_json recorded)

  abbrev pub newest_json : Option ℕ → Json
  newest_json none = null
  newest_json (some newest) = number (int_text newest)

  abbrev pub document_of : ListingPoller → Json
  document_of poller = object (
      field_then "version" (number (int_text 1)) (
        field_then "newest_ms" (newest_json poller.newest_ms) (
          field_then "recorded" (object (recorded_json poller.recorded))
            (field_then "gaps" (array (array_of_gaps poller.gaps)) no_fields))))

  -- `resume_document`: the document, and the poller with the recorded listings that are kept.
  unfoldable pub resume_document : (Json → String) → ListingPoller → ListingPoller × String
  resume_document dumps poller =
      let kept : ListingPoller = record poller {
        recorded = recorded_near poller.newest_ms poller.recorded;
      } in
      (kept, dumps (document_of kept))

module _ (int_of : String → Option ℕ) (as_text : Json → String) where
  -- The value as an int; Python's bools are ints.
  abbrev pub as_int : Json → Option ℕ
  as_int (number digits) = int_of digits
  as_int (bool true) = some 1
  as_int (bool false) = some 0
  as_int _ = none

  abbrev pub set_of_values : JsonList → Ids
  set_of_values no_values = []
  set_of_values (value_then v vs) = insert (as_text v) tt (set_of_values vs)

  abbrev pub set_of_names : JsonFields → Ids
  set_of_names no_fields = []
  set_of_names (field_then name v fields) = insert name tt (set_of_names fields)

  abbrev pub maybe_int : Option Json → Option ℕ
  maybe_int none = none
  maybe_int (some v) = as_int v

  -- `CatchUpGap.from_json`, on the three values that it gets.
  abbrev pub gap_with : Option Json → Option ℕ → Option Json → Option CatchUpGap
  gap_with (some (text cursor)) (some until_ms) none =
      some (record { cursor = cursor; until_ms = until_ms; skip_ids = [] })
  gap_with (some (text cursor)) (some until_ms) (some (array ids)) =
      some (record { cursor = cursor; until_ms = until_ms; skip_ids = set_of_values ids })
  gap_with _ until skip = none

  abbrev pub gap_from : Json → Option CatchUpGap
  gap_from (object fields) =
      gap_with (field_of "cursor" fields) (maybe_int (field_of "until_ms" fields))
        (field_of "skip_ids" fields)
  gap_from _ = none

  abbrev pub add_gap : Option CatchUpGap → List CatchUpGap → List CatchUpGap
  add_gap none gaps = gaps
  add_gap (some gap) gaps = gap ∷ gaps

  abbrev pub gaps_in : JsonList → List CatchUpGap
  gaps_in no_values = []
  gaps_in (value_then v vs) = add_gap (gap_from v) (gaps_in vs)

  abbrev pub empty_object : Option Json → Json
  empty_object none = object no_fields
  empty_object (some v) = v

  abbrev pub empty_array : Option Json → Json
  empty_array none = array no_values
  empty_array (some v) = v

  abbrev pub point_with : Option ℕ → Json → Json → Option ResumePoint
  point_with (some newest_ms) (object recorded) (array gaps) =
      some (record {
        newest_ms = newest_ms;
        recorded_ids = set_of_names recorded;
        gaps = gaps_in gaps;
      })
  point_with newest recorded gaps = none

  abbrev pub is_version : Option ℕ → Bool
  is_version none = false
  is_version (some version) = version == 1

  abbrev pub point_of : Option Json → Option ResumePoint
  point_of (some (object fields)) =
      if is_version (maybe_int (field_of "version" fields))
      then point_with (maybe_int (field_of "newest_ms" fields))
          (empty_object (field_of "recorded" fields)) (empty_array (field_of "gaps" fields))
      else none
  point_of _ = none

  -- parse_resume_document
  unfoldable pub parse_resume_document : (String → Option Json) → Option String → Option ResumePoint
  parse_resume_document loads none = none
  parse_resume_document loads (some document) = point_of (loads document)

-- `resume_from`, given the time that a cursor names.
module _ (position : String → Option ℕ) where
  abbrev pub remaining_from : Option ℕ → ℕ → ℕ
  remaining_from none until_ms = 0
  remaining_from (some at) until_ms = at - until_ms

  -- `remaining_ms`
  abbrev pub remaining_ms : CatchUpGap → ℕ
  remaining_ms gap = remaining_from (position gap.cursor) gap.until_ms

  abbrev pub raised : ℕ → CatchUpGap → CatchUpGap
  raised oldest gap = if ltb gap.until_ms oldest then record gap { until_ms = oldest } else gap

  abbrev pub reopen : ℕ → List CatchUpGap → List CatchUpGap
  reopen oldest [] = []
  reopen oldest (gap ∷ gaps) =
      let rest = reopen oldest gaps in
      if ltb 0 (remaining_ms (raised oldest gap)) then raised oldest gap ∷ rest else rest

  abbrev pub recall : ℕ → Ids → ListingPoller → ListingPoller
  recall newest [] poller = poller
  recall newest ((id, _) ∷ ids) poller = recall newest ids (record poller {
    seen = remember poller.max_seen id poller.seen;
    recorded = insert id newest poller.recorded;
  })

  unfoldable pub resume_from : ResumePoint → ℕ → ℕ → ListingPoller → ListingPoller
  resume_from point now_ms max_catch_up_ms poller =
      let oldest = now_ms - max_catch_up_ms in
      let recalled : ListingPoller = recall point.newest_ms point.recorded_ids (record poller {
        next_floor_ms = some (max (point.newest_ms - resume_overlap_ms) oldest);
      }) in
      record recalled { gaps = recalled.gaps ++ reopen oldest point.gaps }
