-- ===== src/Dmarket/Resume/Gaps.antt =====
-- A restart goes on with every gap that was open.
use brand_sniper_monorepo.Prelude.{
  ℕ, ◌-◌, ◌<◌, ◌≤◌, ◌≡◌, refl, sym, ap, ◌∙◌, subst, String, true, List, [], ◌∷◌, ◌++◌, Option, some,
  arith, ltb, string_eq, Bool-cases, inl, inr, In,
}
use brand_sniper_monorepo.Prelude.Json.{Json, text}
use brand_sniper_monorepo.Dmarket.{DmarketOffer, OffersPage, CatchUpGap, ResumePoint, ListingPoller}
use brand_sniper_monorepo.Dmarket.Owed.{OnPages, InGap}
use brand_sniper_monorepo.Dmarket.Resume.{
  document_of, resume_document, parse_resume_document, raised, reopen, resume_from, remaining_ms,
}
use brand_sniper_monorepo.Dmarket.Resume.Restart.{
  SameGaps, SameGap, parse_resume_document-resume_document,
}

In-append_right : {A : Type 0} (x : A) (xs ys : List A) → In x ys → In x (xs ++ ys)
In-append_right x [] ys m = m
In-append_right x (z ∷ xs) ys m = inr (In-append_right x xs ys m)

module _ (position : String → Option ℕ) where
  raised_remains :
      (oldest at : ℕ) (gap : CatchUpGap)
      → position gap.cursor ≡ some at
      → gap.until_ms < at
      → oldest < at
      → ltb 0 (remaining_ms position (raised position oldest gap)) ≡ true
  raised_remains oldest at gap there open_ recent = elim (Bool-cases (ltb gap.until_ms oldest)) [
    | inl e ↦ rw (e, there) (ground arith)
    | inr e ↦ rw (e, there) (ground arith)
  ]

  In-reopen :
      (oldest at : ℕ) (gap : CatchUpGap) (gaps : List CatchUpGap)
      → position gap.cursor ≡ some at
      → gap.until_ms < at
      → oldest < at
      → In gap gaps
      → In (raised position oldest gap) (reopen position oldest gaps)
  In-reopen oldest at gap [] there open_ recent m = elim m [ ]
  In-reopen oldest at gap (g ∷ gaps) there open_ recent (inl same) =
      rw (same, raised_remains oldest at gap there open_ recent) (inl refl)
  In-reopen oldest at gap (g ∷ gaps) there open_ recent (inr m) =
      elim (Bool-cases (ltb 0 (remaining_ms position (raised position oldest g)))) [
        | inl e ↦ rw e (inr (In-reopen oldest at gap gaps there open_ recent m))
        | inr e ↦ rw e (In-reopen oldest at gap gaps there open_ recent m)
      ]

  raised-InGap :
      (parse_offer : Json → Option DmarketOffer) (page_of : Option String → OffersPage) (e : Json)
      (offer : DmarketOffer) (oldest : ℕ) (gap : CatchUpGap)
      → oldest ≤ offer.created_at_ms
      → InGap parse_offer page_of e offer gap
      → InGap parse_offer page_of e offer (raised position oldest gap)
  raised-InGap parse_offer page_of e offer oldest gap recent within =
      elim (Bool-cases (ltb gap.until_ms oldest)) [
        | inl lower ↦ rw lower (recent, within.1, within.2)
        | inr higher ↦ rw higher within
      ]

In-SameGaps :
    (gap : CatchUpGap) (gaps others : List CatchUpGap)
    → SameGaps gaps others
    → In gap gaps
    → (other : CatchUpGap) × In other others × SameGap gap other
In-SameGaps gap [] others same m = elim m [ ]
In-SameGaps gap (g ∷ gaps) [] same m = elim same [ ]
In-SameGaps gap (g ∷ gaps) (o ∷ others) same (inl e) =
    (o, inl refl, subst (λ x. SameGap x o) e same.0)
In-SameGaps gap (g ∷ gaps) (o ∷ others) same (inr m) =
    let (other, there, alike) = In-SameGaps gap gaps others same.1 m in (other, inr there, alike)

module _ (int_text : ℕ → String) (int_of : String → Option ℕ) (as_text : Json → String)
    (reads_int : (n : ℕ) → int_of (int_text n) ≡ some n)
    (reads_text : (s : String) → as_text (text s) ≡ s) (dumps : Json → String)
    (loads : String → Option Json) (position : String → Option ℕ)
    (parse_offer : Json → Option DmarketOffer) (page_of : Option String → OffersPage) (e : Json)
    (offer : DmarketOffer) where
  same-InGap :
      (gap other : CatchUpGap)
      → SameGap gap other
      → InGap parse_offer page_of e offer gap
      → InGap parse_offer page_of e offer other
  same-InGap gap other (cursor, until, skip) (recent, on, kept) = (
    omega arith,
    subst (λ c. OnPages page_of (some c) e) cursor on,
    sym (skip offer.offer_id) ∙ kept,
  )

  resume_from-InGap :
      (point : ResumePoint) (gap : CatchUpGap) (at now_ms max_catch_up_ms : ℕ)
      (fresh : ListingPoller)
      → In gap point.gaps
      → InGap parse_offer page_of e offer gap
      → position gap.cursor ≡ some at
      → gap.until_ms < at
      → now_ms - max_catch_up_ms < at
      → now_ms - max_catch_up_ms ≤ offer.created_at_ms
      → (opened : CatchUpGap) × In opened
          (resume_from position point now_ms max_catch_up_ms fresh).gaps
        × InGap parse_offer page_of e offer opened
  unfolding resume_from
  resume_from-InGap point gap at now_ms max_catch_up_ms fresh m within there open_ reach recent =
      let oldest : ℕ = now_ms - max_catch_up_ms in
      (
        raised position oldest gap,
        In-append_right (raised position oldest gap) _ (reopen position oldest point.gaps)
            (In-reopen position oldest at gap point.gaps there open_ reach m),
        raised-InGap position parse_offer page_of e offer oldest gap recent within,
      )

  -- A poller that knows a newest listing and stops with a listing in an open gap, whose cursor names a
  -- time after the gap's end, writes a resume point from which a new poller, whatever it held, starts with
  -- the listing in one of its gaps, if the listing and the cursor's time are not older than the longest
  -- catching up, and JSON gives back the document written.
  pub restart-InGap :
      (poller : ListingPoller) (newest : ℕ) (gap : CatchUpGap) (at now_ms max_catch_up_ms : ℕ)
      (fresh : ListingPoller)
      → loads (dumps (document_of int_text (resume_document int_text dumps poller).0))
        ≡ some (document_of int_text (resume_document int_text dumps poller).0)
      → poller.newest_ms ≡ some newest
      → In gap poller.gaps
      → InGap parse_offer page_of e offer gap
      → position gap.cursor ≡ some at
      → gap.until_ms < at
      → now_ms - max_catch_up_ms < at
      → now_ms - max_catch_up_ms ≤ offer.created_at_ms
      → (point : ResumePoint) × (parse_resume_document int_of as_text loads
            (some (resume_document int_text dumps poller).1)
          ≡ some point)
        × (opened : CatchUpGap) × In opened
            (resume_from position point now_ms max_catch_up_ms fresh).gaps
        × InGap parse_offer page_of e offer opened
  restart-InGap poller newest gap at now_ms max_catch_up_ms fresh round when m within there open_
        reach recent =
      let (point, read, newest_same, ids, gaps) =
        parse_resume_document-resume_document int_text int_of as_text reads_int reads_text dumps
          loads poller newest round when in
      let (other, found, alike) = In-SameGaps gap poller.gaps point.gaps gaps m in
      let opened =
        resume_from-InGap point other at now_ms max_catch_up_ms fresh found
          (same-InGap gap other alike within) (ap position (sym alike.0) ∙ there)
          (omega (arith, alike.1)) reach recent in
      (point, read, opened.0, opened.1, opened.2)
