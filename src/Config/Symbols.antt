-- ===== src/Config/Symbols.antt =====
-- The symbols of the worker's settings (worker/config.py).
use hyperliquid_trading_aler.Prelude.{◌≡◌, String, List, [], ◌∷◌, map, All}
use hyperliquid_trading_aler.Config.{WorkerSettings, symbol_list}

module _ (upper : String → String) (upper_idem : (s : String) → upper (upper s) ≡ upper s) where
  map-upper :
      (f : String → String) (xs : List String) → All (λ s. upper s ≡ s) (map (λ s. upper (f s)) xs)
  map-upper f [] = tt
  map-upper f (x ∷ xs) = (upper_idem (f x), map-upper f xs)

  -- The configured symbols are in upper case, given that a text in upper case is its own upper case.
  pub symbol_list-upper : (cfg : WorkerSettings) → All (λ s. upper s ≡ s) (symbol_list upper cfg)
  unfolding symbol_list
  symbol_list-upper cfg = map-upper _ _
