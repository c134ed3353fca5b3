-- ===== src/Loads.antt =====
-- How the edge Redis is loaded with a baseline build (apps/listener/baseline_loader.py). The listeners of
-- two venues may load one hash at once, so a load is its commands, each with the load that sends it. A
-- staging key is kept as the number of its load; times are seconds.
pub mod Whole
use brand_sniper_monorepo.Prelude.{
  ℕ, ◌+◌, ◌-◌, String, Bool, true, false, List, [], ◌∷◌, Option, none, some, if◌then◌else◌, ltb,
  length, nat_beq, nat_eq, ◌==◌, string_eq, ◌≡◌,
}
use brand_sniper_monorepo.Prelude.Dict.{Dict, lookup, insert, erase}
use brand_sniper_monorepo.Prelude.Result.{
  Result, ok, err, value_error, conflict, ◌>>=◌, ◌>>◌, raise_if,
}

pub record LoadedBuild : Type 0 where
  pub build_id : ℕ
  pub built_at : ℕ
  pub item_count : ℕ

pub data Problem : Type 0 where
  nothing_loaded stale : Problem

-- `BaselineState.problem`; `age > max_age` on times of which the build's may be later than now.
abbrev problem_of : ℕ → ℕ → LoadedBuild → Option Problem
problem_of max_age now loaded =
    if nat_beq loaded.item_count 0
    then some nothing_loaded
    else if ltb (loaded.built_at + max_age) now
    then some stale
    else none

unfoldable pub problem : ℕ → ℕ → Option LoadedBuild → Option Problem
problem max_age now none = some nothing_loaded
problem max_age now (some loaded) = problem_of max_age now loaded

-- The wait before the next load.
unfoldable pub next_wait : ℕ → ℕ → Option Problem → ℕ
next_wait refresh retry none = refresh
next_wait refresh retry (some problem) = retry

-- One live hash of the edge Redis, and the staging hashes of the loads.
pub record Hashes (V : Type 0) : Type 0 where
  pub live : Option (Dict String V)
  pub staged : Dict ℕ (Dict String V)

-- `hset` of a mapping onto a hash.
abbrev pub set_all : {V : Type 0} → Dict String V → Dict String V → Dict String V
set_all [] hash = hash
set_all ((k, v) ∷ mapping) hash = set_all mapping (insert k v hash)

-- The commands of `_replace_hash`.
pub data Command (V : Type 0) : Type 0 where
  delete_live : Command V
  delete_staging : ℕ → Command V
  fill : ℕ → Dict String V → Command V
  rename : ℕ → Command V

module _ {V : Type 0} where
  abbrev pub hash_or_empty : Option (Dict String V) → Dict String V
  hash_or_empty none = []
  hash_or_empty (some hash) = hash

  abbrev pub renamed : ℕ → Hashes V → Option (Dict String V) → Result (Hashes V)
  renamed load s none = err value_error
  renamed load s (some hash) = ok (record { live = some hash; staged = erase load s.staged })

  -- What Redis does with a command; a rename of a key that is not there is an error.
  unfoldable pub perform : Command V → Hashes V → Result (Hashes V)
  perform delete_live s = ok (record s { live = none })
  perform (delete_staging load) s = ok (record s { staged = erase load s.staged })
  perform (fill load mapping) s = ok (record s {
    staged = insert load (set_all mapping (hash_or_empty (lookup load s.staged))) s.staged;
  })
  perform (rename load) s = renamed load s (lookup load s.staged)

  -- `_replace_hash`
  unfoldable pub replace_hash : ℕ → Dict String V → List (Command V)
  replace_hash load [] = delete_live ∷ []
  replace_hash load (entry ∷ mapping) =
      delete_staging load ∷ fill load (entry ∷ mapping) ∷ rename load ∷ []

-- The loads under way: what each still has to send.
abbrev pub Loads : Type 0 → Type 0
Loads V = Dict ℕ (List (Command V))

-- A load sends its next command and Redis performs it; a load that was interrupted sends nothing more.
pub data Step {V : Type 0} : Hashes V × Loads V → Hashes V × Loads V → Type 0 where
  sends :
      {s after : Hashes V} {loads : Loads V} (load : ℕ) (command : Command V)
      (rest : List (Command V))
      → lookup load loads ≡ some (command ∷ rest)
      → perform command s ≡ ok after
      → Step (s, loads) (after, insert load rest loads)
  stops : {s : Hashes V} {loads : Loads V} (load : ℕ) → Step (s, loads) (s, insert load [] loads)

pub data Reachable {V : Type 0} (first : Hashes V × Loads V) : Hashes V × Loads V → Type 0 where
  starts : Reachable first first
  goes : {s after : Hashes V × Loads V} → Reachable first s → Step s after → Reachable first after
