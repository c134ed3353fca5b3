-- ===== src/EdgeWindows/Order.antt =====
-- The order of a sorted set's members, as members are added and removed.
use brand_sniper_monorepo.Prelude.{
  ℕ, zero, suc, ◌<◌, ◌≡◌, refl, sym, ap, ◌∙◌, true, false, List, [], ◌∷◌, ◌++◌, arith,
  if◌then◌else◌, Bool-cases, inl, inr, All, take, drop, ◌==◌,
}
use brand_sniper_monorepo.Prelude.Texts.{string_ltb-asym, string_ltb_trans}
use brand_sniper_monorepo.Prelude.Dict.{insert, erase, contains, Distinct}
use brand_sniper_monorepo.EdgeWindows.{
  Member, member_eq, member_beq, member_beq_iff, member_text, SortedSet, rank_before, insert_member,
  ordered_members, remove_members,
}

abbrev Entry : Type 0
Entry = Member × ℕ

rank_before-asym : (e f : Entry) → rank_before e f ≡ true → rank_before f e ≡ false
rank_before-asym (m, s) (n, t) h = ground (arith, string_ltb-asym (member_text m) (member_text n))

rank_before_trans :
    (e f g : Entry) → rank_before f e ≡ false → rank_before g f ≡ false → rank_before g e ≡ false
rank_before_trans (m, s) (n, t) (o, u) h k =
    ground (arith, string_ltb_trans (member_text m) (member_text n) (member_text o))

-- No entry of the list comes before this one.
abbrev pub NotBefore : Entry → List Entry → Type 0
NotBefore e es = All (λ f. rank_before f e ≡ false) es

pub IsRanked : List Entry → Type 0
IsRanked [] = Unit
IsRanked (e ∷ es) = NotBefore e es × IsRanked es

NotBefore-trans :
    (e f : Entry) (es : List Entry) → rank_before f e ≡ false → NotBefore f es → NotBefore e es
NotBefore-trans e f [] h k = tt
NotBefore-trans e f (g ∷ gs) h k = (rank_before_trans e f g h k.0, NotBefore-trans e f gs h k.1)

NotBefore-insert :
    (e f : Entry) (es : List Entry)
    → rank_before f e ≡ false
    → NotBefore e es
    → NotBefore e (insert_member f es)
NotBefore-insert e f [] h k = (h, tt)
NotBefore-insert e f (g ∷ gs) h k = elim (Bool-cases (rank_before g f)) [
  | inl b ↦ rw b (k.0, NotBefore-insert e f gs h k.1)
  | inr b ↦ rw b (h, k)
]

insert_member-IsRanked : (e : Entry) (es : List Entry) → IsRanked es → IsRanked (insert_member e es)
unfolding IsRanked
insert_member-IsRanked e [] h = (tt, tt)
insert_member-IsRanked e (f ∷ fs) h = elim (Bool-cases (rank_before f e)) [
  | inl b ↦
      rw b (NotBefore-insert f e fs (rank_before-asym f e b) h.0, insert_member-IsRanked e fs h.1)
  | inr b ↦ rw b ((b, NotBefore-trans e f fs b h.0), h)
]

pub ordered_members-IsRanked : (set : SortedSet) → IsRanked (ordered_members set)
unfolding IsRanked
ordered_members-IsRanked [] = tt
ordered_members-IsRanked (e ∷ es) =
    insert_member-IsRanked e (ordered_members es) (ordered_members-IsRanked es)

-- An entry that nothing comes before goes to the front.
insert_front : (e : Entry) (es : List Entry) → NotBefore e es → insert_member e es ≡ e ∷ es
insert_front e [] h = refl
insert_front e (f ∷ fs) h = rw h.0 refl

NotBefore-erase :
    (e : Entry) (m : Member) (es : List Entry) → NotBefore e es → NotBefore e (erase m es)
NotBefore-erase e m [] h = tt
NotBefore-erase e m ((n, t) ∷ fs) h = elim (Bool-cases (member_beq n m)) [
  | inl b ↦ rw b (NotBefore-erase e m fs h.1)
  | inr b ↦ rw b (h.0, NotBefore-erase e m fs h.1)
]

-- Removing another member and adding one commute.
erase-insert :
    (m n : Member) (t : ℕ) (es : List Entry)
    → IsRanked es
    → erase m (insert_member (n, t) es)
      ≡ (if n == m then erase m es else insert_member (n, t) (erase m es))
unfolding IsRanked
erase-insert m n t [] h = refl
erase-insert m n t ((o, u) ∷ fs) h = elim (Bool-cases (rank_before (o, u) (n, t))) [
  | inl b ↦ elim (Bool-cases (member_beq n m)) [
    | inl p ↦ elim (Bool-cases (member_beq o m)) [
      | inl q ↦ rw (b, p, q, erase-insert m n t fs h.1) (rw p refl)
      | inr q ↦ rw (b, p, q, erase-insert m n t fs h.1) (rw p refl)
    ]
    | inr p ↦ elim (Bool-cases (member_beq o m)) [
      | inl q ↦ rw (b, p, q, erase-insert m n t fs h.1) (rw p refl)
      | inr q ↦ rw (b, p, q, erase-insert m n t fs h.1) (rw (p, b) refl)
    ]
  ]
  | inr b ↦
      let front =
        insert_front (n, t) (erase m ((o, u) ∷ fs))
          (NotBefore-erase (n, t) m ((o, u) ∷ fs) (b, NotBefore-trans (n, t) (o, u) fs b h.0)) in
      elim (Bool-cases (member_beq n m)) [ inl p ↦ rw (b, p) refl | inr p ↦ rw (b, p) (sym front) ]
]

-- Removing a member keeps the order of the others.
pub ordered_members-erase :
    (m : Member) (set : SortedSet) → ordered_members (erase m set) ≡ erase m (ordered_members set)
ordered_members-erase m [] = refl
ordered_members-erase m ((n, t) ∷ es) =
    let step = erase-insert m n t (ordered_members es) (ordered_members-IsRanked es) in
    elim (Bool-cases (member_beq n m)) [
      | inl p ↦ rw (step, p) (ordered_members-erase m es)
      | inr p ↦ rw (step, p, ordered_members-erase m es) refl
    ]

contains-insert_member :
    (k : Member) (e : Entry) (es : List Entry)
    → contains k (insert_member e es) ≡ contains k (e ∷ es)
contains-insert_member k (n, t) [] = refl
contains-insert_member k (n, t) ((o, u) ∷ fs) = ground (arith, contains-insert_member k (n, t) fs)

Distinct-insert_member :
    (e : Entry) (es : List Entry)
    → contains e.0 es ≡ false
    → Distinct es
    → Distinct (insert_member e es)
Distinct-insert_member (n, t) [] h k = (refl, tt)
Distinct-insert_member (n, t) ((o, u) ∷ fs) h k = elim (Bool-cases (rank_before (o, u) (n, t))) [
  | inl b ↦
      let absent : contains n fs ≡ false = ground arith in
      let other : contains o (insert_member (n, t) fs) ≡ false =
        contains-insert_member o (n, t) fs ∙ ground (arith, k.0, h) in
      rw b (other, Distinct-insert_member (n, t) fs absent k.1)
  | inr b ↦ rw b (h, k)
]

contains-ordered_members :
    (k : Member) (set : SortedSet) → contains k (ordered_members set) ≡ contains k set
contains-ordered_members k [] = refl
contains-ordered_members k (e ∷ es) =
    contains-insert_member k e (ordered_members es) ∙ ground (arith, contains-ordered_members k es)

pub Distinct-ordered_members : (set : SortedSet) → Distinct set → Distinct (ordered_members set)
Distinct-ordered_members [] h = tt
Distinct-ordered_members (e ∷ es) h =
    Distinct-insert_member e (ordered_members es) (contains-ordered_members e.0 es ∙ h.0)
      (Distinct-ordered_members es h.1)

-- Removing the first ranks drops them.
erase_absent : (m : Member) (es : List Entry) → contains m es ≡ false → erase m es ≡ es
erase_absent m [] h = refl
erase_absent m ((n, t) ∷ es) h = ground (arith, erase_absent m es)

erase_head :
    (m : Member) (s : ℕ) (es : List Entry) → contains m es ≡ false → erase m ((m, s) ∷ es) ≡ es
erase_head m s es h = ground (arith, (member_beq_iff m m).1 refl, erase_absent m es h)

ordered_remove :
    (k : ℕ) (es : List Entry) (set : SortedSet)
    → ordered_members set ≡ es
    → Distinct es
    → ordered_members (remove_members (take k es) set) ≡ drop k es
ordered_remove zero es set e h = e
ordered_remove (suc k) [] set e h = e
ordered_remove (suc k) ((m, s) ∷ es) set e h =
    ordered_remove k es (erase m set)
      (ordered_members-erase m set ∙ ap (erase m) e ∙ erase_head m s es h.0) h.1

pub ordered_members-remove_members :
    (k : ℕ) (set : SortedSet)
    → Distinct set
    → ordered_members (remove_members (take k (ordered_members set)) set)
      ≡ drop k (ordered_members set)
ordered_members-remove_members k set h =
    ordered_remove k (ordered_members set) set refl (Distinct-ordered_members set h)

contains-erase :
    (k m : Member) (set : SortedSet) → contains k set ≡ false → contains k (erase m set) ≡ false
contains-erase k m [] h = refl
contains-erase k m ((n, t) ∷ es) h = ground (arith, contains-erase k m es)

pub Distinct-erase : (m : Member) (set : SortedSet) → Distinct set → Distinct (erase m set)
Distinct-erase m [] h = tt
Distinct-erase m ((n, t) ∷ es) h = elim (Bool-cases (member_beq n m)) [
  | inl p ↦ rw p (Distinct-erase m es h.1)
  | inr p ↦ rw p (contains-erase n m es h.0, Distinct-erase m es h.1)
]

pub Distinct-remove_members :
    (es : List Entry) (set : SortedSet) → Distinct set → Distinct (remove_members es set)
Distinct-remove_members [] set h = h
Distinct-remove_members ((m, s) ∷ es) set h =
    Distinct-remove_members es (erase m set) (Distinct-erase m set h)

contains-insert_other :
    (k m : Member) (s : ℕ) (set : SortedSet)
    → contains k set ≡ false
    → member_beq m k ≡ false
    → contains k (insert m s set) ≡ false
contains-insert_other k m s [] h ne = ground arith
contains-insert_other k m s ((n, t) ∷ es) h ne =
    ground (arith, member_beq_iff n m, contains-insert_other k m s es)

pub Distinct-insert :
    (m : Member) (s : ℕ) (set : SortedSet) → Distinct set → Distinct (insert m s set)
Distinct-insert m s [] h = (refl, tt)
Distinct-insert m s ((n, t) ∷ es) h = elim (Bool-cases (member_beq n m)) [
  | inl p ↦ rw p h
  | inr p ↦ rw p (
    contains-insert_other n m s es h.0 (ground (arith, member_beq_iff n m, member_beq_iff m n)),
    Distinct-insert m s es h.1,
  )
]

-- A member with a later score than all goes to the end.
abbrev pub AllBelow : ℕ → SortedSet → Type 0
AllBelow t set = All (λ e. e.1 < t) set

insert_member-append :
    (e : Entry) (es : List Entry) (m : Member) (t : ℕ)
    → e.1 < t
    → insert_member e (es ++ (m, t) ∷ []) ≡ insert_member e es ++ (m, t) ∷ []
insert_member-append (n, u) [] m t h = ground arith
insert_member-append e (f ∷ fs) m t h = ground (arith, insert_member-append e fs m t)

pub ordered_members-append :
    (m : Member) (t : ℕ) (set : SortedSet)
    → AllBelow t set
    → ordered_members (set ++ (m, t) ∷ []) ≡ ordered_members set ++ (m, t) ∷ []
ordered_members-append m t [] h = refl
ordered_members-append m t (e ∷ es) h =
    ap (insert_member e) (ordered_members-append m t es h.1)
    ∙ insert_member-append e (ordered_members es) m t h.0
