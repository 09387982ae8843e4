-- ===== src/Ingest/Reconnect/Order.antt =====
-- The order of the candles of the whole WebSocket stream (worker/ingest/hyperliquid.py), over backfills and
-- connections.
use hyperliquid_trading_aler.Ingest.Reconnect.Symbols.{read_response-symbol}
use hyperliquid_trading_aler.Ingest.Reconnect.{
  Attempt, refused, unsubscribed, subscribed, attempt_session, attempts_loop, stream_ws,
}
use hyperliquid_trading_aler.Prelude.{
  ℕ, ◌+◌, ◌<◌, ◌≡◌, refl, sym, ap, subst, ◌∙◌, inl, inr, String, Bool, false, Option, none, some,
  Result, ok, err, List, [], ◌∷◌, ◌++◌, arith, ltb, All, From, IsSorted, All-select, All-weaken,
}
use hyperliquid_trading_aler.Prelude.Int.{ℤ}
use hyperliquid_trading_aler.Numerics.{Numerics}
use hyperliquid_trading_aler.Ingest.Market.{
  Candle, Response, SnapshotRequest, fetch_candles, backfill, interval_to_seconds,
}
use hyperliquid_trading_aler.Ingest.Market.Backfill.{opened, backfill_newer}
use hyperliquid_trading_aler.Ingest.Stream.{
  LastSeen, last_seen, see, Received, frame, timeout, broken, Session, proceed, handle_message,
  receive, see_all, missed_candles, backfill_all, connection,
}
use hyperliquid_trading_aler.Ingest.Stream.Fresh.{
  IsFresh, IsNewer, Emitted, seen_after, seen_after-append, last_seen-see, handle_message-Emitted,
  receive-IsFresh,
}

module _ (num : Numerics) (upper : String → String) where
  abbrev pub is_behind : Option ℕ → ℕ → Bool
  is_behind none t = false
  is_behind (some prev) t = ltb t prev

  -- No candle is older than the last one of its symbol, and the symbols are in upper case.
  abbrev pub IsOrdered : LastSeen → List (Candle num) → Type 0
  IsOrdered seen [] = Unit
  IsOrdered seen (c ∷ cs) =
      (is_behind (last_seen c.symbol seen) c.timestamp ≡ false)
      × (upper c.symbol ≡ c.symbol)
      × IsOrdered (see c.symbol c.timestamp seen) cs

  pub newer-behind : (o : Option ℕ) (t : ℕ) → IsNewer o t → is_behind o t ≡ false
  newer-behind none t h = refl
  newer-behind (some p) t h = ground arith

  pub IsFresh-IsOrdered :
      (cs : List (Candle num)) (seen : LastSeen) → IsFresh num upper seen cs → IsOrdered seen cs
  IsFresh-IsOrdered [] seen f = tt
  IsFresh-IsOrdered (c ∷ cs) seen f =
      (newer-behind (last_seen c.symbol seen) c.timestamp f.0, f.1, IsFresh-IsOrdered cs _ f.2)

  pub IsOrdered-append :
      (xs ys : List (Candle num)) (seen : LastSeen)
      → IsOrdered seen xs
      → IsOrdered (seen_after num upper xs seen) ys
      → IsOrdered seen (xs ++ ys)
  IsOrdered-append [] ys seen f g = g
  IsOrdered-append (x ∷ xs) ys seen f g = (f.0, f.1, IsOrdered-append xs ys _ f.2 g)

  above_not_behind :
      (t : ℕ) (cs : List (Candle num))
      → From (opened num upper) t cs
      → All (λ (c : Candle num). is_behind (some t) c.timestamp ≡ false) cs
  above_not_behind t [] f = tt
  above_not_behind t (c ∷ cs) f = (ground arith, above_not_behind t cs f.1)

  -- Candles of one symbol in ascending order.
  sorted-IsOrdered :
      (k : String) (cs : List (Candle num)) (seen : LastSeen)
      → upper k ≡ k
      → All (λ (c : Candle num). c.symbol ≡ k) cs
      → IsSorted (opened num upper) cs
      → All (λ (c : Candle num). is_behind (last_seen k seen) c.timestamp ≡ false) cs
      → IsOrdered seen cs
  sorted-IsOrdered k [] seen same named sorted later = tt
  sorted-IsOrdered k (c ∷ cs) seen same named sorted later = (
    subst (λ s. is_behind (last_seen s seen) c.timestamp ≡ false) (sym named.0) later.0,
    ap upper named.0 ∙ same ∙ sym named.0,
    sorted-IsOrdered k cs (see c.symbol c.timestamp seen) same named.1 sorted.1 (
        subst (λ o. All (λ (d : Candle num). is_behind o d.timestamp ≡ false) cs)
          (sym (
            ap (λ s. last_seen k (see s c.timestamp seen)) named.0
            ∙ last_seen-see k c.timestamp seen))
          (above_not_behind c.timestamp cs sorted.0)),
  )

  module _ (upper_idem : (s : String) → upper (upper s) ≡ upper s) where
    proceed-seen :
        (r : Result (LastSeen × List (Candle num))) (rest : LastSeen → Session num upper)
        (seen : LastSeen)
        → ((out : LastSeen × List (Candle num)) → r ≡ ok out → Emitted num upper seen out)
        → ((seen' : LastSeen) → (rest seen').seen ≡ seen_after num upper (rest seen').yielded seen')
        → (proceed num upper r rest seen).seen
          ≡ seen_after num upper (proceed num upper r rest seen).yielded seen
    unfolding proceed
    proceed-seen (err e) rest seen step later = refl
    proceed-seen (ok (seen', cs)) rest seen step later = elim (step (seen', cs) refl) [
      | inl same ↦
          subst
            (λ (o : LastSeen × List (Candle num)).
              (rest o.0).seen ≡ seen_after num upper (o.1 ++ (rest o.0).yielded) seen)
            (sym same) (later seen)
      | inr (c, new, named, same) ↦
          subst
            (λ (o : LastSeen × List (Candle num)).
              (rest o.0).seen ≡ seen_after num upper (o.1 ++ (rest o.0).yielded) seen)
            (sym same) (later (see c.symbol c.timestamp seen))
    ]

    receive-seen :
        (frames : List Received) (clock : ℕ → ℤ) (t : ℕ) (seen : LastSeen)
        → (receive num upper frames clock t seen).seen
          ≡ seen_after num upper (receive num upper frames clock t seen).yielded seen
    unfolding receive
    receive-seen [] clock t seen = refl
    receive-seen (timeout ∷ rest) clock t seen = refl
    receive-seen (broken e ∷ rest) clock t seen = refl
    receive-seen (frame m ∷ rest) clock t seen =
        proceed-seen (handle_message num upper m (clock t) seen)
          (receive num upper rest clock (t + 1)) seen
          (λ out e. handle_message-Emitted num upper upper_idem m (clock t) seen e)
          (λ seen'. receive-seen rest clock (t + 1) seen')

    -- The backfills after a connect.
    module _ (server : SnapshotRequest → Response) where
      backfill-symbol :
          (now : ℕ) (coin : String) (last : ℕ) (interval : String)
          → All
              (λ (c : Candle num). c.symbol ≡ upper coin)
              (backfill num upper server now coin last interval)
      unfolding backfill fetch_candles
      backfill-symbol now coin last interval =
          subst
            (λ k.
              All (λ (c : Candle num). c.symbol ≡ k)
                (backfill num upper server now coin last interval))
            (upper_idem coin)
            (All-select _ (λ (c : Candle num). ltb last c.timestamp) _
              (All-weaken _ (λ (c : Candle num). ltb last c.timestamp) _
                (read_response-symbol num upper coin (interval_to_seconds interval) _)))

      newer_not_behind :
          (last : ℕ) (cs : List (Candle num))
          → All (λ (c : Candle num). last < c.timestamp) cs
          → All (λ (c : Candle num). is_behind (some last) c.timestamp ≡ false) cs
      newer_not_behind last [] h = tt
      newer_not_behind last (c ∷ cs) h = (ground arith, newer_not_behind last cs h.1)

      missed_of-IsOrdered :
          (now : ℕ) (coin : String) (seen : LastSeen) (o : Option ℕ)
          → last_seen (upper coin) seen ≡ o
          → IsOrdered seen
              (elim o [ none ↦ [] | some last ↦ backfill num upper server now coin last "15m" ])
      missed_of-IsOrdered now coin seen none e = tt
      missed_of-IsOrdered now coin seen (some last) e =
          let cs = backfill num upper server now coin last "15m" in
          let (newer, sorted) = backfill_newer num upper server now coin last "15m" in
          sorted-IsOrdered (upper coin) cs seen (upper_idem coin)
            (backfill-symbol now coin last "15m") sorted
            (subst (λ o. All (λ (c : Candle num). is_behind o c.timestamp ≡ false) cs) (sym e)
              (newer_not_behind last cs newer))

      missed-IsOrdered :
          (now : ℕ) (coin : String) (seen : LastSeen)
          → IsOrdered seen (missed_candles num upper server now coin seen)
      unfolding missed_candles
      missed-IsOrdered now coin seen = missed_of-IsOrdered now coin seen _ refl

      see_all-after :
          (cs : List (Candle num)) (seen : LastSeen)
          → see_all num upper server cs seen ≡ seen_after num upper cs seen
      unfolding see_all
      see_all-after [] seen = refl
      see_all-after (c ∷ cs) seen = see_all-after cs (see c.symbol c.timestamp seen)

      -- A part of the stream is in order, and the last timestamps are those of its candles.
      abbrev pub IsKept : LastSeen → LastSeen → List (Candle num) → Type 0
      IsKept seen seen' cs = IsOrdered seen cs × (seen' ≡ seen_after num upper cs seen)

      IsKept-append :
          (xs ys : List (Candle num)) (seen middle seen' : LastSeen)
          → IsKept seen middle xs
          → IsKept middle seen' ys
          → IsKept seen seen' (xs ++ ys)
      IsKept-append xs ys seen middle seen' (f, e) (g, e') = (
        IsOrdered-append xs ys seen f (subst (λ s. IsOrdered s ys) e g),
        e' ∙ ap (seen_after num upper ys) e ∙ sym (seen_after-append num upper xs ys seen),
      )

      pub backfill_all-IsKept :
          (now : ℕ) (coins : List String) (seen : LastSeen)
          → let (seen', cs) = backfill_all num upper server now coins seen in IsKept seen seen' cs
      unfolding backfill_all
      backfill_all-IsKept now [] seen = (tt, refl)
      backfill_all-IsKept now (coin ∷ coins) seen =
          let missed = missed_candles num upper server now coin seen in
          IsKept-append missed _ seen (see_all num upper server missed seen) _
            (missed-IsOrdered now coin seen, see_all-after missed seen)
            (backfill_all-IsKept now coins _)

      connection-IsKept :
          (now : ℕ) (symbols : List String) (frames : List Received) (clock : ℕ → ℤ)
          (seen : LastSeen)
          → let s = connection num upper server now symbols frames clock seen in
            IsKept seen s.seen s.yielded
      unfolding connection
      connection-IsKept now symbols frames clock seen =
          let (seen', missed) = backfill_all num upper server now symbols seen in
          IsKept-append missed _ seen seen' _ (backfill_all-IsKept now symbols seen) (
            IsFresh-IsOrdered _ seen' (receive-IsFresh num upper upper_idem frames clock 0 seen'),
            receive-seen frames clock 0 seen',
          )

      module _ (symbols : List String) where
        attempt-IsKept :
            (a : Attempt) (seen : LastSeen)
            → let s = attempt_session num upper server symbols a seen in
              IsKept seen s.seen s.yielded
        unfolding attempt_session
        attempt-IsKept (refused e) seen = (tt, refl)
        attempt-IsKept (unsubscribed e) seen = (tt, refl)
        attempt-IsKept (subscribed now frames clock) seen =
            connection-IsKept now symbols frames clock seen

        attempts_loop-IsKept :
            (attempts : List Attempt) (b : ℕ) (seen : LastSeen)
            → let out = attempts_loop num upper server symbols attempts b seen in
              IsKept seen out.seen out.yielded
        unfolding attempts_loop
        attempts_loop-IsKept [] b seen = (tt, refl)
        attempts_loop-IsKept (a ∷ rest) b seen =
            IsKept-append _ _ seen _ _ (attempt-IsKept a seen) (attempts_loop-IsKept rest _ _)

        -- Over all its connections and backfills the stream yields candles with their symbols in
        -- upper case, and never one that is older than a candle of its symbol yielded or seen
        -- before, and the last timestamps kept are those of the candles yielded, whatever the
        -- network and the server do, given that a text in upper case is its own upper case.
        pub stream_ws-IsOrdered :
            (attempts : List Attempt) (seen : LastSeen)
            → let out = stream_ws num upper server symbols attempts seen in
              IsOrdered seen out.yielded × (out.seen ≡ seen_after num upper out.yielded seen)
        unfolding stream_ws
        stream_ws-IsOrdered attempts seen = attempts_loop-IsKept attempts 1 seen
