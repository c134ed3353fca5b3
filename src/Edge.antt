-- ===== src/Edge.antt =====
-- What the edge Redis holds for the rules: the baselines and the sticker prices of each venue
-- (`edge_baseline_payload` of pricing_utils.py, and the hashes that the baseline loader fills).
use brand_sniper_monorepo.Prelude.{ℕ, String, Option, none, some, string_eq}
use brand_sniper_monorepo.Prelude.Dict.{Dict, lookup}
use brand_sniper_monorepo.Prelude.Int.{ℤ}

-- The keys of a baseline document that the rules read; a key that is left out is `none`.
pub record Baseline : Type 0 where
  pub support_floor_cents : Option ℕ
  pub latest_price_cents : Option ℕ
  pub rolling_30d_avg_cents : Option ℕ
  pub volatility_cents : Option ℕ
  pub seller_fee_bps : Option ℤ

-- A stored sticker price: a text that `int` reads, or another.
pub data PriceText : Type 0 where
  cents : ℕ → PriceText
  not_a_number : PriceText

pub record EdgeStore : Type 0 where
  pub baselines : Dict String (Dict String Baseline)
  pub sticker_prices : Dict String (Dict String PriceText)

-- `hget`: none where the hash or its field is missing.
abbrev pub hget {ℓ} : {V : Type ℓ} → String → String → Dict String (Dict String V) → Option V
hget name key hashes = elim (lookup name hashes) [ none ↦ none | some hash ↦ lookup key hash ]
