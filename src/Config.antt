-- ===== src/Config.antt =====
-- The listener's tunable settings that are whole numbers or switches, read from the environment at
-- import (apps/listener/detection.py and zscore.py). A deployment chooses them, so the model takes
-- any values; `defaults` are those of the code.
use brand_sniper_monorepo.Prelude.{ℕ, Bool, true, false}

pub record Settings : Type 0 where
  pub sliding_window_size : ℕ
  pub dedup_cache_max_size : ℕ
  pub fee_floor : Bool
  pub min_history_points : ℕ
  pub macro_zscore_fallback : Bool
  pub macro_zscore_triggers : Bool

abbrev pub defaults : Settings
defaults = record {
  sliding_window_size = 20;
  dedup_cache_max_size = 100000;
  fee_floor = true;
  min_history_points = 4;
  macro_zscore_fallback = true;
  macro_zscore_triggers = false;
}
