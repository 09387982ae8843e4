-- ===== src/Api/Reads/Stable.antt =====
-- The pages of `list_candles` (api/routes/candles.py) rest on the unique constraint of the table.
use mathlib.Core.List.{Permᴰ}
use hyperliquid_trading_aler.Prelude.{
  ℕ, ◌≡◌, ◌≢◌, refl, sym, subst, ◌∙◌, String, true, false, Bool-cases, Option, none, List, [], ◌∷◌,
  arith, find, select, str_eq, eq_iff, str_eq_refl, All, All-select, inl, inr, select-Permᴰ,
  length-Permᴰ, sort_by-Permᴰ, IsApart,
}
use hyperliquid_trading_aler.Db.{Env, World}
use hyperliquid_trading_aler.Db.Rows.{CandleModel}
use hyperliquid_trading_aler.Worker.{same_candle}
use hyperliquid_trading_aler.Worker.Invariant.{IsDistinct}
use hyperliquid_trading_aler.Api.Reads.{is_wanted, list_candles}

abbrev opened_at : CandleModel → ℕ
opened_at c = c.timestamp

-- No other candle has the symbol, the time and the interval.
alone :
    (c : CandleModel) (t : List CandleModel)
    → find (same_candle c) t ≡ none
    → All (λ d. same_candle c d ≡ false) t
alone c [] h = tt
alone c (d ∷ t) h = elim (Bool-cases (same_candle c d)) [
  | inl same ↦ absurd (ground arith)
  | inr differs ↦ (differs, alone c t (rw differs at h))
]

module _ (symbol : String) (interval : ℕ) (start end_ : Option ℕ) where
  parts :
      (c : CandleModel)
      → is_wanted symbol interval start end_ c ≡ true
      → (c.symbol ≡ symbol) × (c.interval_seconds ≡ interval)
  parts c h =
      let named : str_eq c.symbol symbol ≡ true = ground arith in
      ((eq_iff c.symbol symbol).0 named, ground arith)

  wanted-apart :
      (c d : CandleModel)
      → is_wanted symbol interval start end_ c ≡ true
      → same_candle c d ≡ false
      → is_wanted symbol interval start end_ d ≡ true
      → opened_at c ≢ opened_at d
  wanted-apart c d cw differs dw same =
      let (sc, ic) = parts c cw in
      let (sd, id_) = parts d dw in
      let name : str_eq c.symbol d.symbol ≡ true =
        subst (λ s. str_eq c.symbol s ≡ true) (sc ∙ sym sd) (str_eq_refl c.symbol) in
      let agree : c.interval_seconds ≡ d.interval_seconds = ic ∙ sym id_ in absurd (ground arith)

  apart_from :
      (c : CandleModel) (t : List CandleModel)
      → is_wanted symbol interval start end_ c ≡ true
      → All (λ d. same_candle c d ≡ false) t
      → All (λ d. is_wanted symbol interval start end_ d ≡ true → opened_at c ≢ opened_at d) t
  apart_from c [] cw h = tt
  apart_from c (d ∷ t) cw h = (wanted-apart c d cw h.0, apart_from c t cw h.1)

  wanted-IsApart :
      (t : List CandleModel)
      → IsDistinct t
      → IsApart opened_at (select (is_wanted symbol interval start end_) t)
  wanted-IsApart [] h = tt
  wanted-IsApart (c ∷ t) h =
      let rest = wanted-IsApart t h.1 in
      elim (Bool-cases (is_wanted symbol interval start end_ c)) [
        | inl wanted ↦ rw wanted (
          All-select (λ d. opened_at c ≢ opened_at d) (is_wanted symbol interval start end_) t
              (apart_from c t wanted (alone c t h.0)),
          rest,
        )
        | inr passed ↦ rw passed rest
      ]

module _ (env : Env) where
  -- The pages of `list_candles` do not depend on the order in which the database stores the candles:
  -- two databases whose candles are the same up to their order give every request the same page and
  -- the same total, given that no two stored candles share symbol, time and interval, as the
  -- unique constraint has it.
  pub list_candles_stable :
      (symbol : String) (interval : ℕ) (start end_ : Option ℕ) (limit offset : ℕ) (order : String)
      (w w' : World)
      → IsDistinct w.db.candles
      → Permᴰ w.db.candles w'.db.candles
      → (list_candles env symbol interval start end_ limit offset order w).0
        ≡ (list_candles env symbol interval start end_ limit offset order w').0
  unfolding list_candles
  list_candles_stable symbol interval start end_ limit offset order w w' distinct same =
      let chosen = select-Permᴰ (is_wanted (env.upper symbol) interval start end_) same in
      let sorted =
        sort_by-Permᴰ opened_at chosen
          (wanted-IsApart (env.upper symbol) interval start end_ w.db.candles distinct) in
      let counted = length-Permᴰ chosen in rw (sorted, counted) refl
