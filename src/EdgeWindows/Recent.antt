-- ===== src/EdgeWindows/Recent.antt =====
-- A price window holds the last prices that were pushed, oldest first.
use brand_sniper_monorepo.Prelude.{
  ℕ, zero, suc, ◌-◌, ◌≤◌, ◌<◌, ◌≡◌, refl, sym, ap, ◌∙◌, subst, false, [], ◌∷◌, ◌++◌, arith, ltb,
  ltb→lt, Bool-cases, inl, inr, All, length, take, drop, map, length-append, length-drop,
}
use brand_sniper_monorepo.Prelude.Int.{pos, ◌+ℤ◌, ◌-ℤ◌}
use brand_sniper_monorepo.Prelude.Dict.{insert, erase, contains, Distinct}
use brand_sniper_monorepo.Lru.{insert_new}
use brand_sniper_monorepo.EdgeWindows.{
  Member, member_eq, member_beq, member_beq_iff, SortedSet, insert_member, ordered_members,
  rank_slice, zrange, zremrangebyrank, remove_members, push_price, window_prices, zadd, zcard,
  price_of_entry,
}
use brand_sniper_monorepo.EdgeWindows.Order.{
  AllBelow, ordered_members-append, ordered_members-remove_members, Distinct-insert,
  Distinct-remove_members,
}

rank_slice_all : (n : ℕ) → rank_slice n (pos 0) (pos 0 -ℤ pos 1) ≡ (0, n)
unfolding rank_slice ◌+ℤ◌ ◌-ℤ◌
rank_slice_all n = ground arith

rank_slice_first :
    (n size : ℕ) → size < n → rank_slice n (pos 0) (pos n -ℤ pos size -ℤ pos 1) ≡ (0, n - size)
unfolding rank_slice ◌+ℤ◌ ◌-ℤ◌
rank_slice_first n size h = ground arith

length-insert_member :
    (e : Member × ℕ) (es : SortedSet) → length (insert_member e es) ≡ suc (length es)
length-insert_member e [] = refl
length-insert_member e (f ∷ fs) = ground (arith, length-insert_member e fs)

length-ordered_members : (set : SortedSet) → length (ordered_members set) ≡ length set
length-ordered_members [] = refl
length-ordered_members (e ∷ es) =
    length-insert_member e (ordered_members es) ∙ ap suc (length-ordered_members es)

take_all : (es : SortedSet) → take (length es) es ≡ es
take_all [] = refl
take_all (e ∷ es) = ap (◌∷◌ e) (take_all es)

zrange_all : (set : SortedSet) → zrange (pos 0) (pos 0 -ℤ pos 1) set ≡ ordered_members set
unfolding zrange
zrange_all set = rw (rank_slice_all (length set)) (
    subst (λ n. take n (ordered_members set) ≡ ordered_members set) (length-ordered_members set)
      (take_all (ordered_members set)))

-- What a push leaves, by rank: all but the oldest over the window's size.
push_price-ordered :
    (size : ℕ) (m : Member) (set : SortedSet)
    → Distinct set
    → ordered_members (push_price size m set)
      ≡ drop (length (insert m m.time set) - size) (ordered_members (insert m m.time set))
unfolding push_price zadd zcard zremrangebyrank zrange
push_price-ordered size m set h =
    let added = insert m m.time set in
    elim (Bool-cases (ltb size (length added))) [
      | inl over ↦
          rw (over, rank_slice_first (length added) size (ltb→lt size (length added) over))
            (ordered_members-remove_members (length added - size) added
              (Distinct-insert m m.time set h))
      | inr fits ↦
          let none_over : length added - size ≡ 0 = ground arith in rw (fits, none_over) refl
    ]

-- The scores are the times.
pub record IsWindow (size : ℕ) (set : SortedSet) : Type 0 where
  pub distinct : Distinct set
  pub scores : All (λ e. e.1 ≡ e.0.time) set
  pub bound : length set ≤ size

scores-insert :
    (m : Member) (set : SortedSet)
    → All (λ e. e.1 ≡ e.0.time) set
    → All (λ e. e.1 ≡ e.0.time) (insert m m.time set)
scores-insert m [] h = (refl, tt)
scores-insert m ((n, t) ∷ es) h = elim (Bool-cases (member_beq n m)) [
  | inl p ↦ rw p (ap (λ k. k.time) (sym ((member_beq_iff n m).0 p)), h.1)
  | inr p ↦ rw p (h.0, scores-insert m es h.1)
]

scores-erase :
    (m : Member) (set : SortedSet)
    → All (λ e. e.1 ≡ e.0.time) set
    → All (λ e. e.1 ≡ e.0.time) (erase m set)
scores-erase m [] h = tt
scores-erase m ((n, t) ∷ es) h = elim (Bool-cases (member_beq n m)) [
  | inl p ↦ rw p (scores-erase m es h.1)
  | inr p ↦ rw p (h.0, scores-erase m es h.1)
]

scores-remove_members :
    (es set : SortedSet)
    → All (λ e. e.1 ≡ e.0.time) set
    → All (λ e. e.1 ≡ e.0.time) (remove_members es set)
scores-remove_members [] set h = h
scores-remove_members ((m, s) ∷ es) set h =
    scores-remove_members es (erase m set) (scores-erase m set h)

-- What holds of a window with the member added, and of that without some members, holds after a push.
push_price_keeps :
    (P : SortedSet → Type 0) (size : ℕ) (m : Member) (set : SortedSet)
    → P (insert m m.time set)
    → ((es s : SortedSet) → P s → P (remove_members es s))
    → P (push_price size m set)
unfolding push_price zadd zcard zremrangebyrank
push_price_keeps P size m set h k =
    let added = insert m m.time set in
    let oldest = zrange (pos 0) (pos (length added) -ℤ pos size -ℤ pos 1) added in
    elim (Bool-cases (ltb size (length added))) [
      | inl over ↦ rw over (k oldest added h)
      | inr fits ↦ rw fits h
    ]

length-push_price :
    (size : ℕ) (m : Member) (set : SortedSet) → Distinct set → length (push_price size m set) ≤ size
length-push_price size m set h =
    let added = insert m m.time set in
    let same = ap length (push_price-ordered size m set h) in
    omega (
      arith,
      same,
      length-ordered_members (push_price size m set),
      length-drop (length added - size) (ordered_members added),
      length-ordered_members added,
    )

-- A push keeps a window's members distinct and its scores their times, and leaves at most the
-- window's size, whatever the order in which the ticks come.
pub push_price-IsWindow :
    (size : ℕ) (m : Member) (set : SortedSet)
    → IsWindow size set
    → IsWindow size (push_price size m set)
push_price-IsWindow size m set h = record {
  distinct =
      push_price_keeps Distinct size m set (Distinct-insert m m.time set h.distinct)
        Distinct-remove_members;
  scores =
      push_price_keeps (All (λ e. e.1 ≡ e.0.time)) size m set (scores-insert m set h.scores)
        scores-remove_members;
  bound = length-push_price size m set h.distinct;
}

absent_later :
    (m : Member) (set : SortedSet)
    → All (λ e. e.1 ≡ e.0.time) set
    → AllBelow m.time set
    → contains m set ≡ false
absent_later m [] h k = refl
absent_later m ((n, t) ∷ es) h k = ground (arith, h.0, k.0, absent_later m es h.1 k.1)

map-drop :
    (n : ℕ) (es : SortedSet) → map price_of_entry (drop n es) ≡ drop n (map price_of_entry es)
map-drop zero es = refl
map-drop (suc n) [] = refl
map-drop (suc n) (e ∷ es) = map-drop n es

map-append_entry :
    (m : Member) (es : SortedSet)
    → map price_of_entry (es ++ (m, m.time) ∷ []) ≡ map price_of_entry es ++ m.price ∷ []
map-append_entry m [] = refl
map-append_entry m (e ∷ es) = ap (◌∷◌ (price_of_entry e)) (map-append_entry m es)

length-prices : (es : SortedSet) → length (map price_of_entry es) ≡ length es
length-prices [] = refl
length-prices (e ∷ es) = ap suc (length-prices es)

window_prices-eq : (set : SortedSet) → window_prices set ≡ map price_of_entry (ordered_members set)
unfolding window_prices
window_prices-eq set = ap (map price_of_entry) (zrange_all set)

-- Where each member of a window is older than the tick, a push makes the tick's price the newest and
-- keeps the prices before it in their order, the oldest leaving when the window is full: the window
-- holds the last prices that were pushed, as many as its size.
pub push_price_lem :
    (size : ℕ) (m : Member) (set : SortedSet)
    → IsWindow size set
    → AllBelow m.time set
    → let prices = window_prices set ++ m.price ∷ [] in
      window_prices (push_price size m set) ≡ drop (length prices - size) prices
push_price_lem size m set h later =
    let es = ordered_members set in
    let new = insert_new m m.time set (absent_later m set h.scores later) in
    let count : length (map price_of_entry es ++ m.price ∷ []) ≡ length (set ++ (m, m.time) ∷ []) =
      omega (
        arith,
        length-append (map price_of_entry es) (m.price ∷ []),
        length-prices es,
        length-ordered_members set,
        length-append set ((m, m.time) ∷ []),
      ) in
    rw (
      window_prices-eq (push_price size m set),
      push_price-ordered size m set h.distinct,
      new,
      ordered_members-append m m.time set later,
      map-drop,
      map-append_entry,
      window_prices-eq set,
      count,
    )
