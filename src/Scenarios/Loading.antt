-- ===== src/Scenarios/Loading.antt =====
-- Two listeners load the same hash at once, and one stops half way.
use brand_sniper_monorepo.Prelude.{
  ℕ, ◌≡◌, refl, sym, ap, ◌∙◌, Bool-cases, inl, inr, String, List, [], ◌∷◌, Option, none, some,
  arith, nat_beq_iff, nat_eq, string_eq, ◌==◌,
}
use brand_sniper_monorepo.Prelude.Dict.{Dict, lookup, insert}
use brand_sniper_monorepo.Loads.{
  Hashes, Command, delete_staging, fill, rename, perform, replace_hash, Loads, sends, stops,
  Reachable, starts, goes,
}
use brand_sniper_monorepo.Loads.Whole.{IsWhole, Reachable-IsWhole}

abbrev build : ℕ → Dict String ℕ
build load = ("AK-47 | Redline", load) ∷ ("M4A4 | Howl", load) ∷ []

abbrev before : Hashes ℕ
before = record { live = some (("AK-47 | Redline", 7) ∷ []); staged = [] }

abbrev two_loads : Loads ℕ
two_loads = (1, replace_hash 1 (build 1)) ∷ (2, replace_hash 2 (build 2)) ∷ []

abbrev after_delete : Hashes ℕ × Loads ℕ
after_delete = (before, insert 1 [] (insert 1 (fill 1 (build 1) ∷ rename 1 ∷ []) two_loads))

one_started : Reachable (before, two_loads) after_delete
unfolding replace_hash perform
one_started =
    goes (goes starts (sends 1 (delete_staging 1) (fill 1 (build 1) ∷ rename 1 ∷ []) refl refl))
      (stops 1)

abbrev list_or : Option (List (Command ℕ)) → List (Command ℕ)
list_or none = []
list_or (some rest) = rest

new_rest :
    (n load : ℕ) (rest : List (Command ℕ)) (o : Option (List (Command ℕ)))
    → n ≡ load
    → o ≡ some (replace_hash n (build n))
    → o ≡ some rest
    → rest ≡ replace_hash load (build load)
new_rest n load rest o e there h =
    sym (ap list_or h) ∙ ap list_or there ∙ ap (λ k. replace_hash k (build k)) e

none_there :
    (o : Option (List (Command ℕ))) (rest : List (Command ℕ)) → o ≡ none → o ≡ some rest → ⊥
none_there o rest e h = ground (arith, e, h)

both_new :
    (load : ℕ) (rest : List (Command ℕ))
    → lookup load two_loads ≡ some rest
    → rest ≡ replace_hash load (build load)
both_new load rest h = elim (Bool-cases (1 == load)) [
  | inl e ↦ new_rest 1 load rest (lookup load two_loads) ((nat_beq_iff 1 load).0 e) (rw e refl) h
  | inr e ↦ elim (Bool-cases (2 == load)) [
    | inl f ↦
        new_rest 2 load rest (lookup load two_loads) ((nat_beq_iff 2 load).0 f) (rw (e, f) refl) h
    | inr f ↦ absurd (none_there (lookup load two_loads) rest (rw (e, f) refl) h)
  ]
]

Reachable-IsWhole_example : IsWhole build before.live after_delete.0.live
Reachable-IsWhole_example =
    Reachable-IsWhole build before.live before two_loads after_delete refl both_new one_started
