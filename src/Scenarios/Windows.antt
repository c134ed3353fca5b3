-- ===== src/Scenarios/Windows.antt =====
-- A price window of three prices, and a score of it.
use brand_sniper_monorepo.Prelude.{
  ℕ, ◌-◌, ◌≤◌, ◌≡◌, refl, ◌↔◌, true, List, [], ◌∷◌, ◌++◌, none, some, arith, length, drop,
  if◌then◌else◌,
}
use brand_sniper_monorepo.Prelude.Int.{
  ℤ, pos, negsuc, ◌+ℤ◌, ◌-ℤ◌, ◌*ℤ◌, ◌/ℤ◌, pos_part, ltb_ℤ, leb_ℤ,
}
use brand_sniper_monorepo.Prelude.Texts.{decimal}
use brand_sniper_monorepo.Prelude.Result.{ok}
use brand_sniper_monorepo.Config.{defaults}
use brand_sniper_monorepo.Tick.{MarketTick, listed}
use brand_sniper_monorepo.EdgeWindows.{Member, SortedSet, rank_slice, push_price, window_prices}
use brand_sniper_monorepo.EdgeWindows.Recent.{IsWindow, push_price-IsWindow, push_price_lem}
use brand_sniper_monorepo.Zscore.{
  Floats, Thresholds, Score, local, calculate_z_score, should_trigger_anomaly,
}
use brand_sniper_monorepo.Zscore.Sources.{FarEnough, trigger_lem}

abbrev pub at_price : ℕ → ℕ → Member
at_price time price = record { time = time; price = price }

abbrev pub full_window : SortedSet
full_window = (at_price 10 500, 10) ∷ (at_price 20 510, 20) ∷ (at_price 30 490, 30) ∷ []

full_window-IsWindow : IsWindow 3 full_window
full_window-IsWindow = record {
  distinct = (refl, (refl, (refl, tt)));
  scores = (refl, (refl, (refl, tt)));
  bound = omega arith;
}

push_price-IsWindow_example : IsWindow 3 (push_price 3 (at_price 20 510) full_window)
push_price-IsWindow_example =
    push_price-IsWindow 3 (at_price 20 510) full_window full_window-IsWindow

push_price_example :
    window_prices (push_price 3 (at_price 40 300) full_window)
    ≡ drop
        (length (window_prices full_window ++ 300 ∷ []) - 3)
        (window_prices full_window ++ 300 ∷ [])
push_price_example =
    push_price_lem 3 (at_price 40 300) full_window full_window-IsWindow
      (omega arith, (omega arith, (omega arith, tt)))

-- Of two ticks in one second the newest price of the window is the one whose text is the larger: here
-- the first tick's, 1500, although the tick that was pushed last costs 1000.
same_second :
    window_prices (push_price 3 (at_price 40 1000) ((at_price 40 1500, 40) ∷ [])) ≡ 1000 ∷ 1500 ∷ []
unfolding window_prices push_price rank_slice ◌+ℤ◌ ◌-ℤ◌ decimal
same_second = refl

abbrev total : List ℤ → ℤ
total [] = pos 0
total (x ∷ xs) = x +ℤ total xs

-- Floats that are whole numbers.
abbrev pub whole : Floats
whole = record {
  Float = ℤ;
  of_int = λ a. a;
  one_percent = pos 1;
  add = λ a b. a +ℤ b;
  sub = λ a b. a -ℤ b;
  mul = λ a b. a *ℤ b;
  quotient = λ a b. a /ℤ pos_part b;
  is_zero = λ a. leb_ℤ a (pos 0);
  sqrt = λ a. a;
  larger = λ a b. if leb_ℤ a b then b else a;
  round_4 = λ a. a;
  gtb = λ a b. ltb_ℤ b a;
  geb = λ a b. leb_ℤ b a;
  fltb = λ a b. ltb_ℤ a b;
  sum_floats = total;
}

abbrev pub thresholds : Thresholds whole
thresholds = record {
  z_score_threshold = negsuc 0;
  z_score_sticker_threshold = negsuc 0;
  min_std_dev_factor = pos 0;
  macro_prior_weight = pos 10;
  min_savings_cents = pos 20;
}

abbrev pub cheap : MarketTick
cheap = record {
  venue = "skinport";
  kind = listed;
  market_hash_name = "AK-47 | Redline";
  price_cents = 300;
  timestamp = 40;
  observed_at_ms = none;
  float_value = none;
  stickers = [];
  event_type = some "listed";
  listing_id = some "17";
  pattern_seed = none;
  paint_index = none;
  listing_url = none;
}

abbrev pub local_score : Score whole
local_score = record { z_score = negsuc 1; mean_cents = pos 500; source = local }

scored :
    calculate_z_score whole defaults thresholds (500 ∷ 510 ∷ 490 ∷ 300 ∷ []) none none none
    ≡ ok (some local_score)
unfolding calculate_z_score ◌+ℤ◌ ◌-ℤ◌ ◌*ℤ◌ ◌/ℤ◌
scored = refl

trigger_example :
    (should_trigger_anomaly whole defaults thresholds (negsuc 1) (pos 500) cheap local ≡ true)
    ↔ ((4 ≤ 4) × FarEnough whole defaults thresholds local_score cheap)
trigger_example =
    trigger_lem whole defaults thresholds (500 ∷ 510 ∷ 490 ∷ 300 ∷ []) none none none local_score
      cheap refl scored
