-- ===== src/EdgeWindows.antt =====
-- The price windows of the edge store: the sorted sets of InMemoryEdgeStore
-- (apps/listener/backtest/store.py), which keep Redis's order, and what the listener does with them
-- (push_to_window of apps/listener/detection.py). A member is kept as its parts, the time and the
-- price; its text, which the ties are ordered by, is written out.
pub mod Order
pub mod Recent
use brand_sniper_monorepo.Prelude.{
  ℕ, zero, suc, ◌+◌, ◌-◌, ◌/◌, ◌%◌, min, String, Bool, true, false, not, ◌&&◌, ◌||◌, List, [], ◌∷◌,
  ◌++◌, Option, none, some, if◌then◌else◌, ltb, leb, nat_beq, nat_beq_iff, str_eq, string_eq,
  eq_iff, length, take, drop, map, arith, ◌≡◌, ◌↔◌,
}
use brand_sniper_monorepo.Prelude.Classes.{Eq, ◌==◌}
use brand_sniper_monorepo.Prelude.Int.{ℤ, pos, ◌+ℤ◌, ◌-ℤ◌, pos_part, ltb_ℤ, leb_ℤ}
use Prim.Native.String.{◌++◌ as ◌<>◌}
use brand_sniper_monorepo.Prelude.Texts.{string_ltb, decimal}
use brand_sniper_monorepo.Prelude.Dict.{Dict, lookup, insert, erase}

-- A member `"<timestamp>:<price_cents>"`.
pub record Member : Type 0 where
  pub time : ℕ
  pub price : ℕ

abbrev member_beq : Member → Member → Bool
member_beq a b = nat_beq a.time b.time && nat_beq a.price b.price

pub member_beq_iff : (a b : Member) → (member_beq a b ≡ true) ↔ (a ≡ b)
member_beq_iff a b = ground (arith, nat_beq_iff a.time b.time, nat_beq_iff a.price b.price)

instance abbrev pub member_eq : Eq Member
member_eq = record { beq = member_beq; beq_iff = member_beq_iff }

abbrev pub member_text : Member → String
member_text m = decimal m.time <> (":" <> decimal m.price)

-- A sorted set: each member's score, in the order in which they were added.
abbrev pub SortedSet : Type 0
SortedSet = Dict Member ℕ

-- `(members[member], member.encode("utf-8"))` of one before that of another.
abbrev pub rank_before : Member × ℕ → Member × ℕ → Bool
rank_before (m, s) (n, t) = ltb s t || (nat_beq s t && string_ltb (member_text m) (member_text n))

abbrev pub insert_member : Member × ℕ → List (Member × ℕ) → List (Member × ℕ)
insert_member e [] = e ∷ []
insert_member e (f ∷ fs) = if rank_before f e then f ∷ insert_member e fs else e ∷ f ∷ fs

-- `_ordered_members`, with the scores.
abbrev pub ordered_members : SortedSet → List (Member × ℕ)
ordered_members [] = []
ordered_members (e ∷ es) = insert_member e (ordered_members es)

-- `_rank_slice`: how many ranks come before the slice, and how many it has.
abbrev from_start : ℤ → ℤ → ℤ
from_start length start =
    if ltb_ℤ start (pos 0)
    then (if ltb_ℤ (length +ℤ start) (pos 0) then pos 0 else length +ℤ start)
    else start

abbrev to_stop : ℤ → ℤ → ℤ
to_stop length stop =
    let at = if ltb_ℤ stop (pos 0) then length +ℤ stop else stop in
    if ltb_ℤ (length -ℤ pos 1) at then length -ℤ pos 1 else at

unfoldable pub rank_slice : ℕ → ℤ → ℤ → ℕ × ℕ
rank_slice n start stop =
    let first = from_start (pos n) start in
    let last = to_stop (pos n) stop in
    if leb_ℤ first last then (pos_part first, pos_part (last -ℤ first +ℤ pos 1)) else (0, 0)

abbrev pub ranks : ℕ × ℕ → List (Member × ℕ) → List (Member × ℕ)
ranks (before, count) es = take count (drop before es)

-- `zadd` of one member, `zcard`, `zrange` and `zremrangebyrank`.
unfoldable pub zadd : Member → ℕ → SortedSet → SortedSet
zadd m score set = insert m score set

unfoldable pub zcard : SortedSet → ℕ
zcard set = length set

unfoldable pub zrange : ℤ → ℤ → SortedSet → List (Member × ℕ)
zrange start stop set = ranks (rank_slice (length set) start stop) (ordered_members set)

abbrev pub remove_members : List (Member × ℕ) → SortedSet → SortedSet
remove_members [] set = set
remove_members ((m, s) ∷ es) set = remove_members es (erase m set)

unfoldable pub zremrangebyrank : ℤ → ℤ → SortedSet → SortedSet
unfolding zrange
zremrangebyrank start stop set = remove_members (zrange start stop set) set

-- `push_to_window`, on the window of the tick's item.
unfoldable pub push_price : ℕ → Member → SortedSet → SortedSet
unfolding zadd zcard zremrangebyrank
push_price window_size m set =
    let added = zadd m m.time set in
    let card = zcard added in
    if ltb window_size card
    then zremrangebyrank (pos 0) (pos card -ℤ pos window_size -ℤ pos 1) added
    else added

abbrev pub price_of_entry : Member × ℕ → ℕ
price_of_entry (m, s) = m.price

-- The prices that `score_window` reads: `zrange(key, 0, -1)`.
unfoldable pub window_prices : SortedSet → List ℕ
unfolding zrange
window_prices set = map price_of_entry (zrange (pos 0) (pos 0 -ℤ pos 1) set)
