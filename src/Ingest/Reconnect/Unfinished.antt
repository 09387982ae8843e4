-- ===== src/Ingest/Reconnect/Unfinished.antt =====
-- What a connection yields of a bar that its backfill has yielded while it was open
-- (worker/ingest/hyperliquid.py).
use hyperliquid_trading_aler.Prelude.{
  ℕ, ◌≤◌, ◌<◌, ◌≡◌, refl, sym, ap, ◌∙◌, subst, String, false, Option, some, none, List, [], ◌∷◌,
  ◌++◌, arith, All, str_eq, eq_iff, Bool-cases, inl, inr,
}
use hyperliquid_trading_aler.Prelude.Int.{ℤ}
use hyperliquid_trading_aler.Numerics.{Numerics}
use hyperliquid_trading_aler.Ingest.Market.{Candle, Response, SnapshotRequest}
use hyperliquid_trading_aler.Ingest.Stream.{
  LastSeen, last_seen, see, Received, receive, backfill_all, connection,
}
use hyperliquid_trading_aler.Ingest.Stream.Seeds.{last_seen-see_if}
use hyperliquid_trading_aler.Ingest.Stream.Fresh.{IsFresh, IsNewer, seen_after, receive-IsFresh}
use hyperliquid_trading_aler.Ingest.Reconnect.Order.{
  IsOrdered, is_behind, newer-behind, backfill_all-IsKept,
}

-- Something of the symbol was seen, at the time or later.
abbrev IsSeen : String → ℕ → LastSeen → Type 0
IsSeen s t seen = (u : ℕ) × (last_seen s seen ≡ some u) × (t ≤ u)

module _ (num : Numerics) (upper : String → String) where
  behind_le : (o : Option ℕ) (t u : ℕ) → o ≡ some u → is_behind num upper o t ≡ false → u ≤ t
  behind_le none t u e h = absurd (cc)
  behind_le (some p) t u e h = ground arith

  see-IsSeen :
      (s k : String) (t v : ℕ) (seen : LastSeen)
      → is_behind num upper (last_seen k seen) v ≡ false
      → IsSeen s t seen
      → IsSeen s t (see k v seen)
  see-IsSeen s k t v seen ahead (u, e, le) = elim (Bool-cases (str_eq k s)) [
    | inl here ↦
        (let same : last_seen k seen ≡ some u =
            ap (λ x. last_seen x seen) ((eq_iff k s).0 here) ∙ e in
          let grown = behind_le (last_seen k seen) v u same ahead in
          (v, last_seen-see_if s k v seen ∙ rw here refl, omega arith))
    | inr apart ↦ (u, last_seen-see_if s k v seen ∙ rw apart e, le)
  ]

  see-own : (k : String) (v : ℕ) (seen : LastSeen) → IsSeen k v (see k v seen)
  see-own k v seen = (v, last_seen-see_if k k v seen ∙ rw ((eq_iff k k).1 refl) refl, omega arith)

  after-IsSeen :
      (cs : List (Candle num)) (s : String) (t : ℕ) (seen : LastSeen)
      → IsOrdered num upper seen cs
      → IsSeen s t seen
      → IsSeen s t (seen_after num upper cs seen)
  after-IsSeen [] s t seen f h = h
  after-IsSeen (c ∷ cs) s t seen f h =
      after-IsSeen cs s t _ f.2 (see-IsSeen s c.symbol t c.timestamp seen f.0 h)

  All-IsSeen :
      (cs : List (Candle num)) (seen : LastSeen)
      → IsOrdered num upper seen cs
      → All (λ (c : Candle num). IsSeen c.symbol c.timestamp (seen_after num upper cs seen)) cs
  All-IsSeen [] seen f = tt
  All-IsSeen (c ∷ cs) seen f = (
    after-IsSeen cs c.symbol c.timestamp _ f.2 (see-own c.symbol c.timestamp seen),
    All-IsSeen cs _ f.2,
  )

  newer_lem : (o : Option ℕ) (t u : ℕ) → o ≡ some u → IsNewer o t → u < t
  newer_lem none t u e h = absurd (cc)
  newer_lem (some p) t u e h = ground arith

  -- Every candle of the symbol is later than the time.
  abbrev pub AreLater : String → ℕ → List (Candle num) → Type 0
  AreLater s t = All (λ (c : Candle num). c.symbol ≡ s → t < c.timestamp)

  fresh-AreLater :
      (cs : List (Candle num)) (s : String) (t : ℕ) (seen : LastSeen)
      → IsFresh num upper seen cs
      → IsSeen s t seen
      → AreLater s t cs
  fresh-AreLater [] s t seen f h = tt
  fresh-AreLater (c ∷ cs) s t seen f (u, e, le) = (
    (λ named.
        let newer =
          newer_lem (last_seen c.symbol seen) c.timestamp u (ap (λ x. last_seen x seen) named ∙ e)
            f.0 in
        omega arith),
    fresh-AreLater cs s t _ f.2 (
        see-IsSeen s c.symbol t c.timestamp seen
          (newer-behind num upper (last_seen c.symbol seen) c.timestamp f.0) (u, e, le)),
  )

  each-AreLater :
      (early cs : List (Candle num)) (seen : LastSeen)
      → IsFresh num upper seen cs
      → All (λ (c : Candle num). IsSeen c.symbol c.timestamp seen) early
      → All (λ (c : Candle num). AreLater c.symbol c.timestamp cs) early
  each-AreLater [] cs seen f h = tt
  each-AreLater (c ∷ early) cs seen f h =
      (fresh-AreLater cs c.symbol c.timestamp seen f h.0, each-AreLater early cs seen f h.1)

  -- A connection yields the candles of its backfill, and then from its frames only candles that are
  -- later than every candle of their symbol in the backfill. So when the backfill has yielded a bar
  -- that was still open, no update yields the bar once it is closed, whatever symbols are
  -- configured, whatever the server answers and whatever frames arrive, given that a text in upper
  -- case is its own upper case.
  pub backfilled_once :
      (server : SnapshotRequest → Response) (now : ℕ) (symbols : List String)
      (frames : List Received) (clock : ℕ → ℤ) (seen : LastSeen)
      → ((s : String) → upper (upper s) ≡ upper s)
      → let missed = (backfill_all num upper server now symbols seen).1 in
        (live : List (Candle num)) × ((connection num upper server now symbols frames clock
            seen).yielded
          ≡ missed ++ live)
        × All (λ (c : Candle num). AreLater c.symbol c.timestamp live) missed
  unfolding connection
  backfilled_once server now symbols frames clock seen idem =
      let (seen', missed) = backfill_all num upper server now symbols seen in
      let (ordered, same) = backfill_all-IsKept num upper idem server now symbols seen in
      let live = (receive num upper frames clock 0 seen').yielded in
      (
        live,
        refl,
        each-AreLater missed live seen' (receive-IsFresh num upper idem frames clock 0 seen') (
            subst (λ z. All (λ (c : Candle num). IsSeen c.symbol c.timestamp z) missed) (sym same)
              (All-IsSeen missed seen ordered)),
      )
