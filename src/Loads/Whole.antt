-- ===== src/Loads/Whole.antt =====
-- The live hash is never half a build, however the loads interleave or stop.
use brand_sniper_monorepo.Prelude.{
  ℕ, ◌≡◌, refl, sym, subst, ap, ◌∙◌, ◌⊎◌, inl, inr, String, false, List, [], ◌∷◌, Option, none,
  some, if◌then◌else◌, arith, nat_beq_iff, nat_eq, string_eq, Bool-cases, ◌==◌,
}
use brand_sniper_monorepo.Prelude.Dict.{Dict, lookup, insert, erase, lookup-insert, lookup-erase}
use brand_sniper_monorepo.Prelude.Result.{Result, ok, err}
use brand_sniper_monorepo.Loads.{
  Hashes, set_all, Command, delete_live, delete_staging, fill, rename, hash_or_empty, perform,
  renamed, replace_hash, Loads, Step, sends, stops, Reachable, starts, goes,
}

module _ {V : Type 0} (mapping_of : ℕ → Dict String V) (old : Option (Dict String V)) where
  -- What a load makes of the live hash.
  abbrev pub loaded : Dict String V → Option (Dict String V)
  loaded [] = none
  loaded (entry ∷ mapping) = some (set_all (entry ∷ mapping) [])

  abbrev pub IsWhole : Option (Dict String V) → Type 0
  IsWhole live = (live ≡ old) ⊎ ((load : ℕ) × (live ≡ loaded (mapping_of load)))

  -- How far a load is: what it has still to send, and its staging hash.
  data OnTrack (load : ℕ) (rest : List (Command V)) (staged : Option (Dict String V)) : Type 0 where
    to_delete : mapping_of load ≡ [] → rest ≡ delete_live ∷ [] → OnTrack load rest staged
    to_start :
        (e : String × V) (m : Dict String V)
        → mapping_of load ≡ e ∷ m
        → rest ≡ delete_staging load ∷ fill load (e ∷ m) ∷ rename load ∷ []
        → OnTrack load rest staged
    to_fill :
        (e : String × V) (m : Dict String V)
        → mapping_of load ≡ e ∷ m
        → rest ≡ fill load (e ∷ m) ∷ rename load ∷ []
        → staged ≡ none
        → OnTrack load rest staged
    to_rename :
        (e : String × V) (m : Dict String V)
        → mapping_of load ≡ e ∷ m
        → rest ≡ rename load ∷ []
        → staged ≡ some (set_all (e ∷ m) [])
        → OnTrack load rest staged
    all_sent : rest ≡ [] → OnTrack load rest staged

  record IsSound (s : Hashes V) (loads : Loads V) : Type 0 where
    whole : IsWhole s.live
    tracks :
        (load : ℕ) (rest : List (Command V))
        → lookup load loads ≡ some rest
        → OnTrack load rest (lookup load s.staged)

  abbrev list_or : Option (List (Command V)) → List (Command V)
  list_or none = []
  list_or (some rest) = rest

  this_one :
      {A : Type 0}
      → (load other : ℕ) (a b : A) → load ≡ other
      → (if load == other then a else b) ≡ a
  this_one load other a b e = ground (arith, nat_beq_iff load other, e)

  other_one :
      {A : Type 0}
      → (load other : ℕ) (a b : A) → (load == other) ≡ false
      → (if load == other then a else b) ≡ b
  other_one load other a b e = rw e refl

  -- Another load's track is kept when the staging hashes change under one load only.
  keep_track :
      (s after : Hashes V) (loads : Loads V) (load : ℕ) (now : List (Command V))
      → ((other : ℕ) → (load == other) ≡ false → lookup other after.staged ≡ lookup other s.staged)
      → ((other : ℕ) (rest : List (Command V))
          → lookup other loads ≡ some rest
          → OnTrack other rest (lookup other s.staged))
      → OnTrack load now (lookup load after.staged)
      → (other : ℕ) (rest : List (Command V)) → lookup other (insert load now loads) ≡ some rest
      → OnTrack other rest (lookup other after.staged)
  keep_track s after loads load now others tracks mine other rest h =
      elim (Bool-cases (load == other)) [
        | inl e ↦ same ((nat_beq_iff load other).0 e)
        | inr e ↦
            subst (OnTrack other rest) (sym (others other e))
              (tracks other rest (sym (lookup-insert load other now loads ∙ rw e refl) ∙ h))
      ]
    where
      same : load ≡ other → OnTrack other rest (lookup other after.staged)
      same e =
          let found : now ≡ rest = ap list_or (
            sym (
              lookup-insert load other now loads
              ∙ this_one load other (some now) (lookup other loads) e)
            ∙ h) in
          subst (λ r. OnTrack other r (lookup other after.staged)) found
            (subst (λ l. OnTrack l now (lookup l after.staged)) e mine)

  -- A command that was next on a track is performed.
  data Performed (load : ℕ) (s : Hashes V) (now : List (Command V)) (after : Hashes V)
      : Type 0 where
    performed :
        IsWhole after.live
        → ((other : ℕ)
            → (load == other) ≡ false
            → lookup other after.staged ≡ lookup other s.staged)
        → OnTrack load now (lookup load after.staged)
        → Performed load s now after

  abbrev first_of : List (Command V) → Command V → Command V
  first_of [] c = c
  first_of (d ∷ rest) c = d

  abbrev rest_of : List (Command V) → List (Command V)
  rest_of [] = []
  rest_of (c ∷ rest) = rest

  abbrev hashes_or : Hashes V → Result (Hashes V) → Hashes V
  hashes_or s (ok after) = after
  hashes_or s (err e) = s

  command-Performed :
      (load : ℕ) (s after a : Hashes V) (command c : Command V) (rest r : List (Command V))
      → command ∷ rest ≡ c ∷ r
      → perform command s ≡ ok after
      → perform c s ≡ ok a
      → Performed load s r a
      → Performed load s rest after
  command-Performed load s after a command c rest r e h k p =
      let same : command ≡ c = ap (λ l. first_of l command) e in
      let answer : a ≡ after = ap (hashes_or s) (sym k ∙ ap (λ d. perform d s) (sym same) ∙ h) in
      subst (λ x. Performed load s x after) (sym (ap rest_of e))
        (subst (Performed load s r) answer p)

  perform-Performed :
      (load : ℕ) (s after : Hashes V) (command : Command V) (rest : List (Command V))
      → OnTrack load (command ∷ rest) (lookup load s.staged)
      → IsWhole s.live
      → perform command s ≡ ok after
      → Performed load s rest after
  unfolding perform
  perform-Performed load s after command rest (to_delete none_left e) w h =
      command-Performed load s after (record s { live = none }) command delete_live rest [] e h refl
        (performed (inr (load, sym (ap loaded none_left))) (λ other d. refl) (all_sent refl))
  perform-Performed load s after command rest (to_start x m is e) w h =
      command-Performed load s after (record s { staged = erase load s.staged }) command
        (delete_staging load) rest _ e h refl
        (performed w
          (λ other d.
            lookup-erase load other s.staged ∙ other_one load other none (lookup other s.staged) d)
          (to_fill x m is refl (
            lookup-erase load load s.staged ∙ this_one load load none (lookup load s.staged) refl)))
  perform-Performed load s after command rest (to_fill x m is e unstaged) w h =
      let hash = set_all (x ∷ m) (hash_or_empty (lookup load s.staged)) in
      command-Performed load s after (record s { staged = insert load hash s.staged }) command
        (fill load (x ∷ m)) rest _ e h refl
        (performed w
          (λ other d.
            lookup-insert load other hash s.staged
            ∙ other_one load other (some hash) (lookup other s.staged) d)
          (to_rename x m is refl (
            lookup-insert load load hash s.staged
            ∙ this_one load load (some hash) (lookup load s.staged) refl
            ∙ ap (λ o. some (set_all (x ∷ m) (hash_or_empty o))) unstaged)))
  perform-Performed load s after command rest (to_rename x m is e staged) w h =
      command-Performed load s after
        (record { live = some (set_all (x ∷ m) []); staged = erase load s.staged }) command
        (rename load) rest _ e h (ap (renamed load s) staged)
        (performed (inr (load, sym (ap loaded is)))
          (λ other d.
            lookup-erase load other s.staged ∙ other_one load other none (lookup other s.staged) d)
          (all_sent refl))
  perform-Performed load s after command rest (all_sent e) w h = absurd (ground (arith, e))

  take_step :
      (s after : Hashes V) (loads : Loads V) (load : ℕ) (rest : List (Command V))
      → IsSound s loads
      → Performed load s rest after
      → IsSound after (insert load rest loads)
  take_step s after loads load rest sound (performed w others mine) = record {
    whole = w;
    tracks = keep_track s after loads load rest others sound.tracks mine;
  }

  Step-IsSound :
      (before after : Hashes V × Loads V)
      → Step before after
      → IsSound before.0 before.1
      → IsSound after.0 after.1
  Step-IsSound _ _ (sends {s = s} {after = after} {loads = loads} load command rest next h) sound =
      take_step s after loads load rest sound (
        perform-Performed load s after command rest (sound.tracks load (command ∷ rest) next)
          sound.whole h)
  Step-IsSound _ _ (stops {s = s} {loads = loads} load) sound = record {
    whole = sound.whole;
    tracks = keep_track s s loads load [] (λ other d. refl) sound.tracks (all_sent refl);
  }

  Reachable-IsSound :
      (first now : Hashes V × Loads V)
      → IsSound first.0 first.1
      → Reachable first now
      → IsSound now.0 now.1
  Reachable-IsSound first _ sound starts = sound
  Reachable-IsSound first _ sound (goes {s = s} {after = after} before step) =
      Step-IsSound s after step (Reachable-IsSound first s sound before)

  new_track :
      (load : ℕ) (mapping : Dict String V) (rest : List (Command V))
      (staged : Option (Dict String V))
      → mapping_of load ≡ mapping
      → rest ≡ replace_hash load mapping
      → OnTrack load rest staged
  unfolding replace_hash
  new_track load [] rest staged m e = to_delete m e
  new_track load (x ∷ mapping) rest staged m e = to_start x mapping m e

  -- While any number of loads run at once, each with its own staging key, and whichever of them stop on
  -- the way, the live hash is the one before them all or what one of the loads makes of it: the whole
  -- mapping of its build, or no hash where that is empty.
  pub Reachable-IsWhole :
      (s : Hashes V) (loads : Loads V) (now : Hashes V × Loads V)
      → s.live ≡ old
      → ((load : ℕ) (rest : List (Command V))
          → lookup load loads ≡ some rest
          → rest ≡ replace_hash load (mapping_of load))
      → Reachable (s, loads) now
      → IsWhole now.0.live
  Reachable-IsWhole s loads now e new r =
      (Reachable-IsSound (s, loads) now
        (record {
          whole = inl e;
          tracks = λ load rest h.
              new_track load (mapping_of load) rest (lookup load s.staged) refl (new load rest h);
        })
        r).whole
