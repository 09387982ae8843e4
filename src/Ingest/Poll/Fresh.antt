-- ===== src/Ingest/Poll/Fresh.antt =====
-- What the poll mode yields (worker/ingest/hyperliquid.py).
use hyperliquid_trading_aler.Prelude.{
  ℕ, suc, zero, ◌+◌, ◌≡◌, refl, sym, ap, subst, ◌∙◌, String, Bool, true, Option, none, some, Result,
  ok, err, >>=-eq-ok, List, [], ◌∷◌, ◌++◌, arith, length, last?, All, ◌==◌, Bool-cases, inl, inr,
  not,
}
use hyperliquid_trading_aler.Numerics.{Numerics}
use hyperliquid_trading_aler.Db.Rows.{Value}
use hyperliquid_trading_aler.Ingest.Market.{
  Candle, Item, dict, other, Response, failure, reply, SnapshotRequest, body_items,
}
use hyperliquid_trading_aler.Ingest.Stream.{LastSeen, last_seen}
use hyperliquid_trading_aler.Ingest.Stream.Fresh.{
  IsFresh, IsNewer, seen_after, seen_after-append, candle_from_dict-symbol,
}
use hyperliquid_trading_aler.Ingest.Poll.{
  keyed_items, sort_items, parse_latest, read_latest, or_none, fetch_latest_candle, is_newer,
  poll_candle, poll_round, poll_rounds, stream_poll,
}

module _ (num : Numerics) (upper : String → String) where
  pub IsFresh-append :
      (xs ys : List (Candle num)) (seen : LastSeen)
      → IsFresh num upper seen xs
      → IsFresh num upper (seen_after num upper xs seen) ys
      → IsFresh num upper seen (xs ++ ys)
  IsFresh-append [] ys seen f g = g
  IsFresh-append (x ∷ xs) ys seen f g = (f.0, f.1, IsFresh-append xs ys _ f.2 g)

  module _ (less : Value → Value → Result Bool) where
    parse_latest-symbol :
        (coin : String) (o : Option (Value × Item)) {c : Candle num}
        → parse_latest num upper less coin o ≡ ok (some c)
        → c.symbol ≡ upper (upper coin)
    unfolding parse_latest
    parse_latest-symbol coin none h = absurd (cc)
    parse_latest-symbol coin (some (k, other)) h = absurd (cc)
    parse_latest-symbol coin (some (k, dict d)) h = candle_from_dict-symbol num upper coin d 900 h

    not_found :
        {r : Result (Option (Candle num))} {c : Candle num} → r ≡ ok none → r ≡ ok (some c) → ⊥
    not_found e h = cc

    read_latest-symbol :
        (coin : String) (r : Response) {c : Candle num}
        → read_latest num upper less coin r ≡ ok (some c)
        → c.symbol ≡ upper (upper coin)
    unfolding read_latest
    read_latest-symbol coin (failure e) h = absurd (cc)
    read_latest-symbol coin (reply status body) h = elim (Bool-cases (not (status == 200))) [
      | inl bad ↦ absurd (not_found refl (rw bad at h))
      | inr fine ↦
          (let (found, e1, h1) = >>=-eq-ok (body_items num upper body) _ (rw fine at h) in
            let (pairs, e2, h2) = >>=-eq-ok (keyed_items num upper found) _ h1 in
            let (sorted, e3, h3) = >>=-eq-ok (sort_items num upper less pairs) _ h2 in
            parse_latest-symbol coin (last? sorted) h3)
    ]

    or_none-ok :
        (r : Result (Option (Candle num))) {c : Candle num}
        → or_none num upper less r ≡ some c
        → r ≡ ok (some c)
    or_none-ok (ok o) h = cc
    or_none-ok (err e) h = absurd (cc)

    fetch_latest-symbol :
        (server : SnapshotRequest → Response) (now : ℕ) (coin : String) {c : Candle num}
        → fetch_latest_candle num upper less server now coin ≡ some c
        → c.symbol ≡ upper (upper coin)
    unfolding fetch_latest_candle
    fetch_latest-symbol server now coin h = read_latest-symbol coin _ (or_none-ok _ h)

    newer_lem : (o : Option ℕ) (t : ℕ) → is_newer num upper less o t ≡ true → IsNewer o t
    newer_lem none t h = tt
    newer_lem (some p) t h = ground arith

    -- What one answer does: the two dicts stay equal.
    poll_candle-IsFresh :
        (coin : String) (o : Option (Candle num)) (seen : LastSeen)
        → upper coin ≡ coin
        → ((c : Candle num) → o ≡ some c → c.symbol ≡ coin)
        → let out = poll_candle num upper less coin o (seen, seen) in
          IsFresh num upper seen out.1
          × (out.0 ≡ (seen_after num upper out.1 seen, seen_after num upper out.1 seen))
    unfolding poll_candle
    poll_candle-IsFresh coin none seen same h = (tt, refl)
    poll_candle-IsFresh coin (some c) seen same h =
        subst
          (λ k.
            let out = poll_candle num upper less k (some c) (seen, seen) in
            IsFresh num upper seen out.1
            × (out.0 ≡ (seen_after num upper out.1 seen, seen_after num upper out.1 seen)))
          (h c refl)
          (elim (Bool-cases (is_newer num upper less (last_seen c.symbol seen) c.timestamp)) [
            | inl newer ↦ rw newer (
              (
                newer_lem (last_seen c.symbol seen) c.timestamp newer,
                ap upper (h c refl) ∙ same ∙ sym (h c refl),
                tt,
              ),
              refl,
            )
            | inr old ↦ rw old (tt, refl)
          ])

    -- What a part of the stream does that starts with equal dicts.
    abbrev IsKept : LastSeen → (LastSeen × LastSeen) × List (Candle num) → Type 0
    IsKept seen out =
        IsFresh num upper seen out.1
        × (out.0 ≡ (seen_after num upper out.1 seen, seen_after num upper out.1 seen))

    -- One part after another.
    IsKept-append :
        (seen : LastSeen) (first : (LastSeen × LastSeen) × List (Candle num))
        (later : LastSeen × LastSeen → (LastSeen × LastSeen) × List (Candle num))
        → IsKept seen first
        → ((s : LastSeen) → IsKept s (later (s, s)))
        → IsKept seen ((later first.0).0, first.1 ++ (later first.0).1)
    IsKept-append seen (state, cs) later (f, e) g =
        let s = seen_after num upper cs seen in
        subst (λ z. IsKept seen ((later z).0, cs ++ (later z).1)) (sym e)
          (
            IsFresh-append cs (later (s, s)).1 seen f (g s).0,
            (g s).1 ∙ ap (λ z. (z, z)) (sym (seen_after-append num upper cs (later (s, s)).1 seen)),
          )

    -- The symbols are in upper case, as `symbol_list` makes them.
    module _ (server : ℕ → SnapshotRequest → Response) (clock : ℕ → ℕ) where
      poll_round-IsKept :
          (symbols : List String) (t : ℕ) (seen : LastSeen)
          → All (λ s. upper s ≡ s) symbols
          → IsKept seen (poll_round num upper less server clock symbols t (seen, seen))
      unfolding poll_round
      poll_round-IsKept [] t seen h = (tt, refl)
      poll_round-IsKept (coin ∷ coins) t seen h =
          IsKept-append seen _ (poll_round num upper less server clock coins (t + 1))
            (poll_candle-IsFresh coin _ seen h.0
              (λ c e. fetch_latest-symbol (server t) (clock t) coin e ∙ ap upper h.0 ∙ h.0))
            (λ s. poll_round-IsKept coins (t + 1) s h.1)

      poll_rounds-IsKept :
          (n : ℕ) (symbols : List String) (t : ℕ) (seen : LastSeen)
          → All (λ s. upper s ≡ s) symbols
          → IsKept seen (poll_rounds num upper less server clock n symbols t (seen, seen))
      unfolding poll_rounds
      poll_rounds-IsKept zero symbols t seen h = (tt, refl)
      poll_rounds-IsKept (suc n) symbols t seen h =
          IsKept-append seen _
            (poll_rounds num upper less server clock n symbols (t + length symbols))
            (poll_round-IsKept symbols t seen h)
            (λ s. poll_rounds-IsKept n symbols (t + length symbols) s h)

      -- In poll mode, after any number of rounds, every candle yielded has its symbol in upper case
      -- and is newer than every candle of its symbol that was seen before, and the last timestamps
      -- kept are those of the candles yielded, whatever the server answers, given that the symbols
      -- are in upper case.
      pub stream_poll-IsFresh :
          (rounds : ℕ) (symbols : List String) (seen : LastSeen)
          → All (λ s. upper s ≡ s) symbols
          → let (seen', cs) = stream_poll num upper less server clock rounds symbols seen in
            IsFresh num upper seen cs × (seen' ≡ seen_after num upper cs seen)
      unfolding stream_poll
      stream_poll-IsFresh rounds symbols seen h =
          let (fresh, e) = poll_rounds-IsKept rounds symbols 0 seen h in
          (fresh, ap (λ (z : LastSeen × LastSeen). z.1) e)
