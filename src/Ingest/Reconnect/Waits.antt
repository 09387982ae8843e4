-- ===== src/Ingest/Reconnect/Waits.antt =====
-- How long the WebSocket stream waits before it connects again (worker/ingest/hyperliquid.py).
use hyperliquid_trading_aler.Prelude.{
  ℕ, suc, zero, ◌*◌, min, ◌≡◌, String, List, [], ◌∷◌, Bool, true, false,
}
use hyperliquid_trading_aler.Numerics.{Numerics}
use hyperliquid_trading_aler.Ingest.Market.{Response, SnapshotRequest}
use hyperliquid_trading_aler.Ingest.Stream.{Ended, silent, raised}
use hyperliquid_trading_aler.Ingest.Reconnect.{Attempt, refused}

-- The waits of `n` failures in a row: each is twice the one before, up to a minute.
abbrev pub doublings : ℕ → ℕ → List ℕ
doublings zero b = []
doublings (suc n) b = min b 60 ∷ doublings n (b * 2)

-- Whether the connection was made.
abbrev pub is_connected : Attempt → Bool
is_connected (refused e) = false
is_connected _ = true

module _ (num : Numerics) (upper : String → String) where
  module _ (server : SnapshotRequest → Response) (symbols : List String) where
    -- What follows a connection that ended in this way, with `n` refusals after it.
    abbrev pub IsWait : Ended num upper → ℕ → List ℕ → Type 0
    IsWait silent n waits = waits ≡ 0 ∷ doublings n 1
    IsWait (raised e) n waits = waits ≡ doublings (suc n) 1
