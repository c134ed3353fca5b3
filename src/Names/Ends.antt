-- ===== src/Names/Ends.antt =====
-- What ends a text, and what is before it: the lemmas on the texts of a name.
use Prim.Native.Char.{Char, code}
use Prim.Native.String.{char_at, ◌++◌ as ◌<>◌}
use text.Mathlib.TextLemmas.{nil-append, cons-append}
use brand_sniper_monorepo.Prelude.{
  suc, ◌+◌, ◌≡◌, ◌⊎◌, inl, inr, refl, subst, ap, ◌∙◌, String, true, false, ◌||◌, List, [], ◌∷◌,
  none, some, nat_beq_iff, nat_eq, string_eq, eq_iff, ◌==◌, arith, Bool-cases,
}
use brand_sniper_monorepo.Names.{has_text, ends_with, text_length, before_suffix}
use brand_sniper_monorepo.Names.Versions.{is_space, strip_right, split_open, find_wear}

ends_with_refl : (s : String) → ends_with s s ≡ true
unfolding ends_with
ends_with_refl String.[] = refl
ends_with_refl (String.◌∷◌ c s) = ground (arith, eq_iff (String.◌∷◌ c s) (String.◌∷◌ c s))

pub ends_with-append : (x suffix : String) → ends_with suffix (x <> suffix) ≡ true
unfolding ends_with
ends_with-append String.[] suffix = rw (nil-append suffix) (ends_with_refl suffix)
ends_with-append (String.◌∷◌ c x) suffix =
    rw (cons-append c x suffix) (ground (arith, ends_with-append x suffix))

pub text_length-append : (x y : String) → text_length (x <> y) ≡ text_length x + text_length y
text_length-append String.[] y = rw (nil-append y) (omega arith)
text_length-append (String.◌∷◌ c x) y =
    rw (cons-append c x y) (omega (arith, text_length-append x y))

longer : (c : Char) (x suffix : String) → (String.◌∷◌ c (x <> suffix) == suffix) ≡ false
longer c x suffix = elim (Bool-cases (String.◌∷◌ c (x <> suffix) == suffix)) [
  | inr e ↦ e
  | inl e ↦ absurd (
      let same : suc (text_length (x <> suffix)) ≡ text_length suffix =
        ap text_length ((eq_iff (String.◌∷◌ c (x <> suffix)) suffix).0 e) in
      omega (arith, same, text_length-append x suffix))
]

before_suffix_refl : (s : String) → before_suffix s s ≡ ""
before_suffix_refl String.[] = refl
before_suffix_refl (String.◌∷◌ c s) = ground (arith, eq_iff (String.◌∷◌ c s) (String.◌∷◌ c s))

pub before_suffix-append : (x suffix : String) → before_suffix suffix (x <> suffix) ≡ x
before_suffix-append String.[] suffix = rw (nil-append suffix) (before_suffix_refl suffix)
before_suffix-append (String.◌∷◌ c x) suffix =
    rw (cons-append c x suffix)
      (rw (longer c x suffix) (ap (String.◌∷◌ c) (before_suffix-append x suffix)))

-- Of two texts that both end a text, one ends the other.
one_ends :
    (other x suffix : String)
    → ends_with other (x <> suffix) ≡ true
    → (ends_with other suffix ≡ true) ⊎ (ends_with suffix other ≡ true)
unfolding ends_with
one_ends other String.[] suffix h =
    inl (subst (λ s. ends_with other s ≡ true) (nil-append suffix) h)
one_ends other (String.◌∷◌ c x) suffix h = elim (Bool-cases (other == String.◌∷◌ c (x <> suffix))) [
  | inl e ↦ inr (
      rw ((eq_iff other (String.◌∷◌ c (x <> suffix))).0 e) (
        subst (λ s. ends_with suffix s ≡ true) (cons-append c x suffix)
          (ends_with-append (String.◌∷◌ c x) suffix)))
  | inr e ↦
      let g : (other == String.◌∷◌ c (x <> suffix) || ends_with other (x <> suffix)) ≡ true =
        subst (λ s. ends_with other s ≡ true) (cons-append c x suffix) h in
      one_ends other x suffix (ground (arith, g, e))
]

-- A space is stripped from the end; a text that ends with a closing parenthesis keeps its end.
pub strip_right-space : (x : String) → strip_right (x <> " ") ≡ strip_right x
strip_right-space String.[] = refl
strip_right-space (String.◌∷◌ c x) = rw (cons-append c x " ", strip_right-space x) refl

closed_some : (x : String) → (x <> ")" == "") ≡ false
closed_some x = elim (Bool-cases (x <> ")" == "")) [
  | inr e ↦ e
  | inl e ↦ absurd (
      let same : text_length (x <> ")") ≡ 0 = ap text_length ((eq_iff (x <> ")") "").0 e) in
      let more : text_length (x <> ")") ≡ text_length x + 1 = text_length-append x ")" in
      omega (arith, same, more))
]

pub strip_right-closed : (x : String) → strip_right (x <> ")") ≡ x <> ")"
strip_right-closed String.[] = refl
strip_right-closed (String.◌∷◌ c x) =
    rw (cons-append c x ")", strip_right-closed x, closed_some x) refl

-- A text whose first character is no space, and which ends in none.
pub data IsStripped : String → Type 0 where
  stripped :
      (c : Char) (text : String)
      → is_space (code c) ≡ false
      → strip_right (String.◌∷◌ c text) ≡ String.◌∷◌ c text
      → IsStripped (String.◌∷◌ c text)

split_open-none :
    (c : Char) (v : String)
    → split_open v ≡ none
    → (code c == 40) ≡ false
    → split_open (String.◌∷◌ c v) ≡ none
split_open-none c v h e = rw (h, e) refl

-- A text without an opening parenthesis has none after it is closed.
pub split_open-closed : (v : String) → has_text "(" v ≡ false → split_open (v <> ")") ≡ none
unfolding has_text
split_open-closed String.[] h = refl
split_open-closed (String.◌∷◌ c v) h = rw (cons-append c v ")") (
    split_open-none c (v <> ")") (split_open-closed v (ground (arith, h)))
      (ground (arith, h, nat_beq_iff 40 (code c), nat_beq_iff (code c) 40)))

abbrev open_char : Char
open_char = char_at "(" 0

opened : (w : String) → "(" <> w ≡ String.◌∷◌ open_char w
opened w = cons-append open_char "" w ∙ ap (String.◌∷◌ open_char) (nil-append w)

split_open_here :
    (w : String) → split_open w ≡ none → split_open (String.◌∷◌ open_char w) ≡ some ("", w)
split_open_here w h = rw h refl

pub split_open-append :
    (x w : String) → split_open w ≡ none → split_open (x <> ("(" <> w)) ≡ some (x, w)
split_open-append String.[] w h = rw (nil-append ("(" <> w), opened w) (split_open_here w h)
split_open-append (String.◌∷◌ c x) w h =
    rw (cons-append c x ("(" <> w), split_open-append x w h) refl

-- A wear of the list that no wear before it ends, nor it them.
abbrev pub IsWear : String → List String → Type 0
IsWear wear [] = ⊥
IsWear wear (other ∷ others) =
    (other ≡ wear)
    ⊎ (((ends_with other wear ≡ false) × (ends_with wear other ≡ false)) × IsWear wear others)

no_end :
    (other x wear : String)
    → ends_with other wear ≡ false
    → ends_with wear other ≡ false
    → ends_with other (x <> wear) ≡ false
no_end other x wear a b = elim (Bool-cases (ends_with other (x <> wear))) [
  | inr e ↦ e
  | inl e ↦ elim (one_ends other x wear e) [
    | inl h ↦ absurd (cc (h, a))
    | inr h ↦ absurd (cc (h, b))
  ]
]

pub find_wear-append :
    (wears : List String) (x wear : String)
    → IsWear wear wears
    → find_wear wears (x <> wear) ≡ some wear
unfolding find_wear
find_wear-append [] x wear h = absurd h
find_wear-append (other ∷ wears) x wear (inl e) = rw (e, ends_with-append x wear) refl
find_wear-append (other ∷ wears) x wear (inr h) =
    rw (no_end other x wear h.0.0 h.0.1) (find_wear-append wears x wear h.1)
