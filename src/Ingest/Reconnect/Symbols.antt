-- ===== src/Ingest/Reconnect/Symbols.antt =====
-- The candles that the REST client parses (worker/ingest/hyperliquid.py) carry the symbol asked for.
use hyperliquid_trading_aler.Prelude.{
  ℕ, ◌≡◌, refl, ap, subst, ◌∙◌, String, Bool, true, false, Option, none, some, Result, ok, err,
  >>=-eq-ok, List, [], ◌∷◌, All, ok-injective, if◌then◌else◌, sort_by, ◌>>=◌, All-sort_by,
}
use hyperliquid_trading_aler.Numerics.{Numerics}
use hyperliquid_trading_aler.Ingest.Market.{
  Candle, Item, dict, other, Response, failure, reply, body_items, candle_from_dict, parse_items,
  read_response, or_empty,
}
use hyperliquid_trading_aler.Ingest.Market.Backfill.{opened}
use hyperliquid_trading_aler.Ingest.Stream.Fresh.{candle_from_dict-symbol}

module _ (num : Numerics) (upper : String → String) where
  added_All :
      (P : Candle num → Type 0) (o : Option (Candle num)) (later : List (Candle num))
      → ((c : Candle num) → o ≡ some c → P c)
      → All P later
      → All P (elim o [ none ↦ later | some c ↦ c ∷ later ])
  added_All P none later h g = g
  added_All P (some c) later h g = (h c refl, g)

  parse_items-symbol :
      (coin : String) (seconds : ℕ) (found : List Item) {cs : List (Candle num)}
      → parse_items num upper coin seconds found ≡ ok cs
      → All (λ (c : Candle num). c.symbol ≡ upper (upper coin)) cs
  unfolding parse_items
  parse_items-symbol coin seconds [] h =
      subst (All (λ (c : Candle num). c.symbol ≡ upper (upper coin))) (ok-injective h) tt
  parse_items-symbol coin seconds (other ∷ rest) h = absurd (cc)
  parse_items-symbol coin seconds (dict d ∷ rest) h =
      let (candle, e1, h1) = >>=-eq-ok (candle_from_dict num upper coin d seconds) _ h in
      let (later, e2, h2) = >>=-eq-ok (parse_items num upper coin seconds rest) _ h1 in
      subst (All (λ (c : Candle num). c.symbol ≡ upper (upper coin))) (ok-injective h2) (
        added_All _ candle later
          (λ c e. candle_from_dict-symbol num upper coin d seconds (e1 ∙ ap ok e))
          (parse_items-symbol coin seconds rest e2))

  parsed_All :
      (P : Candle num → Type 0) (r : Result (List (Candle num)))
      → ((cs : List (Candle num)) → r ≡ ok cs → All P cs)
      → All P (or_empty num upper (r >>= λ cs. ok (sort_by (opened num upper) cs)))
  parsed_All P (err e) h = tt
  parsed_All P (ok cs) h = All-sort_by P (opened num upper) cs (h cs refl)

  found-symbol :
      (coin : String) (seconds : ℕ) (b : Bool) (m : Result (List Item))
      → All
          (λ (c : Candle num). c.symbol ≡ upper (upper coin))
          (or_empty num upper (
            if b
            then ok []
            else m >>= λ found. parse_items num upper coin seconds found >>= λ cs.
                ok (sort_by (opened num upper) cs)))
  found-symbol coin seconds true m = tt
  found-symbol coin seconds false (err e) = tt
  found-symbol coin seconds false (ok found) =
      parsed_All _ (parse_items num upper coin seconds found)
        (λ cs e. parse_items-symbol coin seconds found e)

  pub read_response-symbol :
      (coin : String) (seconds : ℕ) (r : Response)
      → All
          (λ (c : Candle num). c.symbol ≡ upper (upper coin))
          (or_empty num upper (read_response num upper coin seconds r))
  unfolding read_response
  read_response-symbol coin seconds (failure e) = tt
  read_response-symbol coin seconds (reply status body) =
      found-symbol coin seconds _ (body_items num upper body)
