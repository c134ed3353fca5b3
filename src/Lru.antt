-- ===== src/Lru.antt =====
-- A bounded `OrderedDict`: the least recent entries leave when it grows over its limit. The caches of
-- apps/listener/detection.py, executor.py and alerts.py are built this way.
use mathlib.Core.List.{append_assoc}
use brand_sniper_monorepo.Prelude.{
  ℕ, zero, suc, ◌+◌, ◌-◌, ◌≤◌, ◌<◌, ◌≡◌, refl, ap, true, false, [], ◌∷◌, ◌++◌, none, some, arith,
  ltb, length, drop, length-append, length-drop, if◌then◌else◌, Eq, Bool-cases, inl, inr,
}
use brand_sniper_monorepo.Prelude.Dict.{
  Dict, lookup, erase, insert, insert_last, contains, lookup-insert, lookup-erase, lookup-append,
}

module _ {ℓ κ} {K : Type ℓ} {V : Type κ} where
  -- `while len(d) > limit: d.popitem(last=False)`, counting what leaves.
  unfoldable pub evict_oldest : ℕ → ℕ → Dict K V → Dict K V × ℕ
  evict_oldest limit evicted [] = ([], evicted)
  evict_oldest limit evicted (x ∷ d) =
      let rest = evict_oldest limit (evicted + 1) d in
      if ltb limit (length (x ∷ d)) then rest else (x ∷ d, evicted)

  -- Exactly the entries over the limit leave, the oldest first.
  pub evict_oldest-eq :
      (limit evicted : ℕ) (d : Dict K V)
      → evict_oldest limit evicted d ≡ (drop (length d - limit) d, evicted + (length d - limit))
  unfolding evict_oldest
  evict_oldest-eq limit evicted [] =
      let e : 0 - limit ≡ 0 = omega arith in rw e (ap (λ n. ([], n)) (omega arith))
  evict_oldest-eq limit evicted (x ∷ d) = elim (Bool-cases (ltb limit (length (x ∷ d)))) [
    | inl over ↦
        let e : length (x ∷ d) - limit ≡ suc (length d - limit) = ground arith in
        rw (over, e, evict_oldest-eq limit (evicted + 1) d)
          (ap (λ n. (drop (length d - limit) d, n)) (omega arith))
    | inr fits ↦
        let e : length (x ∷ d) - limit ≡ 0 = ground arith in
        rw (fits, e) (ap (λ n. (x ∷ d, n)) (omega arith))
  ]

  -- Evicting leaves no more than the limit.
  pub length-evict_oldest :
      (limit evicted : ℕ) (d : Dict K V) → length (evict_oldest limit evicted d).0 ≤ limit
  length-evict_oldest limit evicted d =
      rw (evict_oldest-eq limit evicted d) (omega (arith, length-drop (length d - limit) d))

  -- A dict within the limit is left alone.
  pub evict_oldest_fits :
      (limit evicted : ℕ) (d : Dict K V) → length d ≤ limit → (evict_oldest limit evicted d).0 ≡ d
  evict_oldest_fits limit evicted d h =
      let e : length d - limit ≡ 0 = omega arith in rw (evict_oldest-eq limit evicted d, e)

module _ {ℓ κ} {K : Type ℓ} {V : Type κ} ⦃e : Eq K⦄ where
  -- `d[k] = v; d.move_to_end(k)`, then the eviction loop: the dict and how many entries left.
  unfoldable pub put : ℕ → K → V → Dict K V → Dict K V × ℕ
  put limit k v d = evict_oldest limit 0 (insert_last k v d)

  lookup-drop-none : (k : K) (n : ℕ) (d : Dict K V) → lookup k d ≡ none → lookup k (drop n d) ≡ none
  lookup-drop-none k zero d h = h
  lookup-drop-none k (suc n) [] h = h
  lookup-drop-none k (suc n) (x ∷ d) h = lookup-drop-none k n d (ground arith)

  pub drop-append_within : (n : ℕ) (c d : Dict K V) → n ≤ length c → drop n (c ++ d) ≡ drop n c ++ d
  drop-append_within zero c d h = refl
  drop-append_within (suc n) [] d h = absurd (omega arith)
  drop-append_within (suc n) (x ∷ c) d h = drop-append_within n c d (omega arith)

  erase_absent : (k : K) (d : Dict K V) → lookup k (erase k d) ≡ none
  erase_absent k d = rw (lookup-erase k k d, (e.beq_iff k k).1 refl)

  -- What was put is found.
  pub lookup-put_self :
      (limit : ℕ) (k : K) (v : V) (d : Dict K V) → 0 < limit → lookup k (put limit k v d).0 ≡ some v
  unfolding put
  lookup-put_self limit k v d h =
      let n : ℕ = length (insert_last k v d) - limit in
      let within : n ≤ length (erase k d) =
        omega (arith, length-append (erase k d) ((k, v) ∷ [])) in
      rw (
        evict_oldest-eq limit 0 (insert_last k v d),
        drop-append_within n (erase k d) ((k, v) ∷ []) within,
        lookup-append k (drop n (erase k d)) ((k, v) ∷ []),
        lookup-drop-none k n (erase k d) (erase_absent k d),
        (e.beq_iff k k).1 refl,
      )

  pub length-put : (limit : ℕ) (k : K) (v : V) (d : Dict K V) → length (put limit k v d).0 ≤ limit
  unfolding put
  length-put limit k v d = length-evict_oldest limit 0 (insert_last k v d)

  pub insert_new :
      (k : K) (v : V) (d : Dict K V) → contains k d ≡ false → insert k v d ≡ d ++ (k, v) ∷ []
  insert_new k v [] h = refl
  insert_new k v ((j, w) ∷ d) h = ground (arith, e.beq_iff j k, insert_new k v d)

  pub length-insert_old :
      (k : K) (v : V) (d : Dict K V) → contains k d ≡ true → length (insert k v d) ≡ length d
  length-insert_old k v [] h = absurd (ground arith)
  length-insert_old k v ((j, w) ∷ d) h = ground (arith, e.beq_iff j k, length-insert_old k v d)

  -- A key of the later dict is a key of the two together.
  pub contains-append : (k : K) (c d : Dict K V) → contains k d ≡ true → contains k (c ++ d) ≡ true
  contains-append k c d h = ground (arith, lookup-append k c d)

  -- A new key that is inserted survives the eviction, at the end.
  pub insert_evict :
      (limit : ℕ) (k : K) (v : V) (d : Dict K V)
      → 0 < limit
      → contains k d ≡ false
      → (kept : Dict K V) × ((evict_oldest limit 0 (insert k v d)).0 ≡ kept ++ (k, v) ∷ [])
  insert_evict limit k v d room new =
      let n : ℕ = length (d ++ (k, v) ∷ []) - limit in
      let within : n ≤ length d = omega (arith, length-append d ((k, v) ∷ [])) in
      (
        drop n d,
        rw (
          insert_new k v d new,
          evict_oldest-eq limit 0 (d ++ (k, v) ∷ []),
          drop-append_within n d ((k, v) ∷ []) within,
        ),
      )

  pub contains_head : (k : K) (v : V) (d : Dict K V) → contains k ((k, v) ∷ d) ≡ true
  contains_head k v d = ground (arith, (e.beq_iff k k).1 refl)

  pub contains_next :
      (k j : K) (v : V) (d : Dict K V) → contains k d ≡ true → contains k ((j, v) ∷ d) ≡ true
  contains_next k j v d h = ground arith

  pub contains-insert_self : (k : K) (v : V) (d : Dict K V) → contains k (insert k v d) ≡ true
  contains-insert_self k v d = ground (arith, lookup-insert k k v d, (e.beq_iff k k).1 refl)

  pub contains-insert :
      (k j : K) (v : V) (d : Dict K V) → contains j d ≡ true → contains j (insert k v d) ≡ true
  contains-insert k j v d h = ground (arith, lookup-insert k j v d)

  -- With room for two, inserting a second key keeps the first, which is the last entry.
  pub insert_second :
      (limit : ℕ) (k s : K) (v w : V) (kept : Dict K V)
      → 2 ≤ limit
      → length (kept ++ (k, v) ∷ []) ≤ limit
      → (contains k (evict_oldest limit 0 (insert s w (kept ++ (k, v) ∷ []))).0 ≡ true)
        × (contains s (evict_oldest limit 0 (insert s w (kept ++ (k, v) ∷ []))).0 ≡ true)
  insert_second limit k s v w kept room fits =
      let once : Dict K V = kept ++ (k, v) ∷ [] in
      let last : contains k once ≡ true =
        contains-append k kept ((k, v) ∷ []) (contains_head k v []) in
      elim (Bool-cases (contains s once)) [
        | inl old ↦
            rw
              (evict_oldest_fits limit 0 (insert s w once)
                (omega (arith, length-insert_old s w once old)))
              (contains-insert s k w once last, contains-insert_self s w once)
        | inr new ↦
            let pair : Dict K V = (k, v) ∷ (s, w) ∷ [] in
            let n : ℕ = length (kept ++ pair) - limit in
            let within : n ≤ length kept =
              omega (arith, length-append kept pair, length-append kept ((k, v) ∷ [])) in
            rw
              (
                insert_new s w once new,
                evict_oldest-eq limit 0 (once ++ (s, w) ∷ []),
                append_assoc kept ((k, v) ∷ []) ((s, w) ∷ []),
                drop-append_within n kept pair within,
              )
              (
                contains-append k (drop n kept) pair (contains_head k v ((s, w) ∷ [])),
                contains-append s (drop n kept) pair
                    (contains_next s k v ((s, w) ∷ []) (contains_head s w [])),
              )
      ]
