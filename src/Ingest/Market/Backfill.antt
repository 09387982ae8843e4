-- ===== src/Ingest/Market/Backfill.antt =====
-- The REST helpers of worker/ingest/hyperliquid.py: what `backfill` returns, and what one item that
-- raises does to the whole reply.
use hyperliquid_trading_aler.Prelude.{
  ℕ, ◌<◌, ◌≡◌, String, Bool, true, false, Result, ok, err, List, [], ◌∷◌, arith, ltb, All,
  All-select, From, IsSorted, sort_by, sort_by-IsSorted, select, Bool-cases, inl, inr, ◌>>=◌,
  if◌then◌else◌,
}
use hyperliquid_trading_aler.Numerics.{Numerics}
use hyperliquid_trading_aler.Ingest.Market.{
  Candle, Item, Response, reply, failure, SnapshotRequest, interval_to_seconds, parse_items,
  read_response, or_empty, fetch_candles, backfill, body_items,
}

module _ {A : Type 0} (key : A → ℕ) (p : A → Bool) where
  From-select : (m : ℕ) (xs : List A) → From key m xs → From key m (select p xs)
  From-select m [] h = tt
  From-select m (x ∷ xs) h = elim (Bool-cases (p x)) [
    | inl in_ ↦ rw in_ (h.0, From-select m xs h.1)
    | inr out ↦ rw out (From-select m xs h.1)
  ]

  select-IsSorted : (xs : List A) → IsSorted key xs → IsSorted key (select p xs)
  select-IsSorted [] h = tt
  select-IsSorted (x ∷ xs) h = elim (Bool-cases (p x)) [
    | inl in_ ↦ rw in_ (From-select (key x) xs h.0, select-IsSorted xs h.1)
    | inr out ↦ rw out (select-IsSorted xs h.1)
  ]

module _ (num : Numerics) (upper : String → String) where
  abbrev pub opened : Candle num → ℕ
  opened c = c.timestamp

  found-IsSorted :
      (b : Bool) (m : Result (List Item)) (f : List Item → Result (List (Candle num)))
      → IsSorted opened (
          or_empty num upper (if b then ok [] else m >>= λ x. f x >>= λ cs. ok (sort_by opened cs)))
  found-IsSorted true m f = tt
  found-IsSorted false (err e) f = tt
  found-IsSorted false (ok x) f = parsed-IsSorted (f x)
    where
      parsed-IsSorted :
          (r : Result (List (Candle num)))
          → IsSorted opened (or_empty num upper (r >>= λ cs. ok (sort_by opened cs)))
      parsed-IsSorted (err e) = tt
      parsed-IsSorted (ok cs) = sort_by-IsSorted opened cs

  read_response-IsSorted :
      (coin : String) (seconds : ℕ) (r : Response)
      → IsSorted opened (or_empty num upper (read_response num upper coin seconds r))
  unfolding read_response
  read_response-IsSorted coin seconds (failure e) = tt
  read_response-IsSorted coin seconds (reply status body) =
      found-IsSorted _ (body_items num upper body) (parse_items num upper coin seconds)

  newer-All :
      (last : ℕ) (cs : List (Candle num))
      → All (λ c. ltb last c.timestamp ≡ true → last < c.timestamp) cs
  newer-All last [] = tt
  newer-All last (c ∷ cs) = ((λ e. ground arith), newer-All last cs)

  module _ (server : SnapshotRequest → Response) where
    -- Whatever the server answers, `backfill` returns candles that are all strictly newer than the
    -- last timestamp, from the oldest to the newest.
    pub backfill_newer :
        (now : ℕ) (coin : String) (last : ℕ) (interval : String)
        → let cs = backfill num upper server now coin last interval in
          All (λ c. last < c.timestamp) cs × IsSorted opened cs
    unfolding backfill fetch_candles
    backfill_newer now coin last interval = (
      All-select (λ c. last < c.timestamp) (λ c. ltb last c.timestamp) _ (newer-All last _),
      select-IsSorted opened (λ c. ltb last c.timestamp) _
          (read_response-IsSorted coin (interval_to_seconds interval) _),
    )
