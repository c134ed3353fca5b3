-- ===== src/Dmarket/Resume/Restart.antt =====
-- What a restart finds of the poller that wrote the resume point.
use brand_sniper_monorepo.Prelude.{
  ℕ, ◌≡◌, refl, sym, ◌∙◌, String, ◌||◌, List, [], ◌∷◌, Option, some, arith, string_eq, ◌==◌,
}
use brand_sniper_monorepo.Prelude.Dict.{Dict, contains, lookup-insert}
use brand_sniper_monorepo.Prelude.Json.{Json, text, object, field_of}
use brand_sniper_monorepo.Dmarket.{Ids, CatchUpGap, ResumePoint, ListingPoller}
use brand_sniper_monorepo.Dmarket.Resume.{
  insert_id, sort_ids, array_of_ids, gap_json, array_of_gaps, recorded_json, recorded_near,
  document_of, resume_document, set_of_values, set_of_names, gap_from, gaps_in,
  parse_resume_document,
}

contains-insert_id :
    (id k : String) (ids : Ids) → contains k (insert_id id ids) ≡ (id == k || contains k ids)
unfolding insert_id
contains-insert_id id k [] = ground arith
contains-insert_id id k ((j, _) ∷ ids) =
    ground (arith, contains-insert_id id k ids, string_eq.beq_iff id k, string_eq.beq_iff j k)

contains-sort_ids : (k : String) (ids : Ids) → contains k (sort_ids ids) ≡ contains k ids
unfolding sort_ids
contains-sort_ids k [] = refl
contains-sort_ids k ((id, _) ∷ ids) =
    ground (arith, contains-insert_id id k (sort_ids ids), contains-sort_ids k ids)

-- Two sets with the same IDs; two gaps that differ at most in the order of what they skip.
abbrev pub SameIds : {V W : Type 0} → Dict String V → Dict String W → Type 0
SameIds a b = (id : String) → contains id a ≡ contains id b

abbrev pub SameGap : CatchUpGap → CatchUpGap → Type 0
SameGap a b = (a.cursor ≡ b.cursor) × (a.until_ms ≡ b.until_ms) × SameIds a.skip_ids b.skip_ids

abbrev pub SameGaps : List CatchUpGap → List CatchUpGap → Type 0
SameGaps [] [] = Unit
SameGaps (a ∷ as_) (b ∷ bs) = SameGap a b × SameGaps as_ bs
SameGaps [] (b ∷ bs) = ⊥
SameGaps (a ∷ as_) [] = ⊥

module _ (int_text : ℕ → String) (int_of : String → Option ℕ) (as_text : Json → String)
    (reads_int : (n : ℕ) → int_of (int_text n) ≡ some n)
    (reads_text : (s : String) → as_text (text s) ≡ s) where
  contains-set_of_values :
      (k : String) (ids : Ids)
      → contains k (set_of_values int_of as_text (array_of_ids ids)) ≡ contains k ids
  contains-set_of_values k [] = refl
  contains-set_of_values k ((id, _) ∷ ids) = rw (reads_text id) (
      ground (
        arith,
        lookup-insert id k tt (set_of_values int_of as_text (array_of_ids ids)),
        contains-set_of_values k ids,
      ))

  contains-set_of_names :
      (k : String) (recorded : Dict String ℕ)
      → contains k (set_of_names int_of as_text (recorded_json int_text recorded))
        ≡ contains k recorded
  contains-set_of_names k [] = refl
  contains-set_of_names k ((id, created) ∷ recorded) = ground (
    arith,
    lookup-insert id k tt (set_of_names int_of as_text (recorded_json int_text recorded)),
    contains-set_of_names k recorded,
  )

  gap_from-gap_json :
      (gap : CatchUpGap)
      → (restored : CatchUpGap) × (gap_from int_of as_text (object (gap_json int_text gap))
          ≡ some restored)
        × SameGap gap restored
  unfolding field_of
  gap_from-gap_json gap = (
    record {
      cursor = gap.cursor;
      until_ms = gap.until_ms;
      skip_ids = set_of_values int_of as_text (array_of_ids (sort_ids gap.skip_ids));
    },
    rw (reads_int gap.until_ms) refl,
    (
      refl,
      refl,
      λ id.
          sym
            (contains-set_of_values id (sort_ids gap.skip_ids) ∙ contains-sort_ids id gap.skip_ids),
    ),
  )

  gaps_in-SameGaps :
      (gaps : List CatchUpGap)
      → SameGaps gaps (gaps_in int_of as_text (array_of_gaps int_text gaps))
  gaps_in-SameGaps [] = tt
  gaps_in-SameGaps (gap ∷ gaps) =
      let (restored, read, same) = gap_from-gap_json gap in rw read (same, gaps_in-SameGaps gaps)

  -- What a poller that has a newest time writes is read back as that time, its gaps with all that they
  -- skip, and the recorded listings that it keeps, where the JSON module reads what it wrote.
  pub parse_resume_document-resume_document :
      (dumps : Json → String) (loads : String → Option Json) (poller : ListingPoller) (newest : ℕ)
      → loads (dumps (document_of int_text (resume_document int_text dumps poller).0))
        ≡ some (document_of int_text (resume_document int_text dumps poller).0)
      → poller.newest_ms ≡ some newest
      → (point : ResumePoint) × (parse_resume_document int_of as_text loads
            (some (resume_document int_text dumps poller).1)
          ≡ some point)
        × (point.newest_ms ≡ newest)
        × SameIds (resume_document int_text dumps poller).0.recorded point.recorded_ids
        × SameGaps poller.gaps point.gaps
  unfolding parse_resume_document resume_document field_of
  parse_resume_document-resume_document dumps loads poller newest round at =
      let kept = recorded_near poller.newest_ms poller.recorded in
      (
        record {
          newest_ms = newest;
          recorded_ids = set_of_names int_of as_text (recorded_json int_text kept);
          gaps = gaps_in int_of as_text (array_of_gaps int_text poller.gaps);
        },
        rw (round, reads_int 1, at, reads_int newest) refl,
        refl,
        λ id. sym (contains-set_of_names id kept),
        gaps_in-SameGaps poller.gaps,
      )
