-- ===== src/Names/Tests.antt =====
-- Names of the docs of item_classifier.py.
use Prim.Native.String.{char_at, ◌++◌ as ◌<>◌}
use brand_sniper_monorepo.Prelude.{inl, inr, ◌≡◌, refl, none, some, string_eq}
use brand_sniper_monorepo.Names.{wear_suffixes, has_text, ends_with, parse_item_meta}
use brand_sniper_monorepo.Names.Versions.{parse_version_from_name, build_versioned_name}
use brand_sniper_monorepo.Names.Ends.{IsStripped, stripped, IsWear}
use brand_sniper_monorepo.Names.RoundTrip.{parse_version_from_name-build_versioned_name}

-- A knife's phase goes into its name and comes out of it.
phase_built :
    build_versioned_name "★ Knife | Doppler (Factory New)" (some "Phase 3")
    ≡ "★ Knife | Doppler (Phase 3) (Factory New)"
unfolding build_versioned_name
phase_built = refl

phase_parsed :
    parse_version_from_name "★ Knife | Doppler (Phase 3) (Factory New)"
    ≡ ("★ Knife | Doppler (Factory New)", some "Phase 3")
unfolding parse_version_from_name
phase_parsed = refl

-- Without a wear it does not come out again.
unworn_parsed :
    parse_version_from_name (build_versioned_name "AK-47 | Redline" (some "Phase 3"))
    ≡ ("AK-47 | Redline (Phase 3)", none)
unfolding parse_version_from_name build_versioned_name
unworn_parsed = refl

knife : parse_item_meta (λ name. name) "★ Knife | Doppler.csv" ≡ ("★ Knife | Doppler", "Knife")
unfolding parse_item_meta
knife = refl

knife-IsStripped : IsStripped "★ Knife | Doppler"
knife-IsStripped = stripped (char_at "★" 0) " Knife | Doppler" refl refl

knife_new : IsWear "(Minimal Wear)" wear_suffixes
unfolding ends_with
knife_new = inr ((refl, refl), inl refl)

round_trip_example :
    parse_version_from_name
      (build_versioned_name (("★ Knife | Doppler" <> " ") <> "(Minimal Wear)") (some "Phase 3"))
    ≡ (("★ Knife | Doppler" <> " ") <> "(Minimal Wear)", some "Phase 3")
unfolding has_text
round_trip_example =
    parse_version_from_name-build_versioned_name "★ Knife | Doppler" "Phase 3" "(Minimal Wear)"
      knife-IsStripped knife_new refl refl refl refl
