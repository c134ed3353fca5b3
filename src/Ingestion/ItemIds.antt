-- ===== src/Ingestion/ItemIds.antt =====
-- The ID that a name gets is kept in the cache.
use brand_sniper_monorepo.Prelude.{
  ℕ, ◌≡◌, refl, ap, ◌∙◌, String, [], Option, none, some, arith, string_eq, eq_iff,
}
use brand_sniper_monorepo.Prelude.Dict.{Dict, lookup, lookup-insert}
use brand_sniper_monorepo.Ingestion.{Items, update, get_or_create_item_id, with_item, resolve}

module _ (item_type_of : String → String) where
  resolve-cached :
      (name : String) (cache : Dict String ℕ) (items : Items) (o : Option ℕ)
      → lookup name cache ≡ o
      → (let r = resolve item_type_of name [] items o none in
          lookup name (update r.0.1 cache) ≡ some r.1)
  resolve-cached name cache items (some id) h = h
  resolve-cached name cache items none h =
      lookup-insert name name (with_item name (item_type_of name) (lookup name items.rows) items).1
        cache
      ∙ ground (arith, eq_iff name name)

  pub get_or_create-cached :
      (name : String) (cache : Dict String ℕ) (items : Items)
      → (let r = get_or_create_item_id item_type_of cache name (items, []) in
          lookup name (update r.0.1 cache) ≡ some r.1)
  unfolding get_or_create_item_id
  get_or_create-cached name cache items = resolve-cached name cache items (lookup name cache) refl

  pub cached-get_or_create :
      (name : String) (cache : Dict String ℕ) (items : Items) (id : ℕ)
      → lookup name cache ≡ some id
      → get_or_create_item_id item_type_of cache name (items, []) ≡ ((items, []), id)
  unfolding get_or_create_item_id
  cached-get_or_create name cache items id h = ap (λ o. resolve item_type_of name [] items o none) h
