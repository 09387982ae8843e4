-- ===== src/Worker/Cursors/Memory.antt =====
-- What a table of cursors remembers of each symbol (worker/ingest/cursor.py), and how a new or a moved
-- cursor changes it.
use hyperliquid_trading_aler.Prelude.{
  ℕ, ◌≡◌, refl, sym, subst, ap, ◌∙◌, String, Bool, true, false, ◌&&◌, Option, none, some, List, [],
  ◌∷◌, arith, find, str_eq, str_eq_refl, eq_iff, Bool-cases, inl, inr, if◌then◌else◌, ◌==◌, All,
}
use hyperliquid_trading_aler.Db.Rows.{WorkerCursor}
use hyperliquid_trading_aler.Db.Table.{update, IsKeyed}
use hyperliquid_trading_aler.Ingest.Cursor.{is_cursor_of}
use hyperliquid_trading_aler.Worker.Candles.{cursor_key, find-apart, is_cursor_of-parts}

module _ (upper : String → String) (worker : String) where
  abbrev is_of : String → WorkerCursor → Bool
  is_of s c = str_eq c.worker_id worker && str_eq (upper c.symbol) s

  abbrev carried : String → WorkerCursor → Option ℕ → Option ℕ
  carried s c later = elim later [
    | some u ↦ some u
    | none ↦ if is_of s c then some c.last_processed_timestamp else none
  ]

  -- The time that the worker's cursors remember of a symbol: that of the last one.
  abbrev pub remembered : String → List WorkerCursor → Option ℕ
  remembered s [] = none
  remembered s (c ∷ t) = carried s c (remembered s t)

  -- The worker has one cursor for each symbol.
  abbrev pub IsSingle : List WorkerCursor → Type 0
  IsSingle [] = Unit
  IsSingle (c ∷ t) = (str_eq c.worker_id worker ≡ true → remembered c.symbol t ≡ none) × IsSingle t

  abbrev pub IsUpper : WorkerCursor → Type 0
  IsUpper c = upper c.symbol ≡ c.symbol

  carried-other :
      (s : String) (c : WorkerCursor) (later : Option ℕ)
      → is_of s c ≡ false
      → carried s c later ≡ later
  carried-other s c none other = rw other refl
  carried-other s c (some u) other = refl

  is_of-true :
      (s : String) (c : WorkerCursor)
      → str_eq c.worker_id worker ≡ true
      → upper c.symbol ≡ s
      → is_of s c ≡ true
  is_of-true s c mine named = rw (mine, named, str_eq_refl s) refl

  is_of-false :
      (s k : String) (c : WorkerCursor)
      → upper c.symbol ≡ k
      → str_eq k s ≡ false
      → is_of s c ≡ false
  is_of-false s k c named apart = rw (named, apart) (ground arith)

  carried-own :
      (s : String) (c : WorkerCursor)
      → is_of s c ≡ true
      → carried s c none ≡ some c.last_processed_timestamp
  carried-own s c own = rw own refl

  pub find-remembered :
      (s : String) (t : List WorkerCursor)
      → All IsUpper t
      → find (is_cursor_of worker s) t ≡ none
      → remembered s t ≡ none
  find-remembered s [] h missing = refl
  find-remembered s (c ∷ t) h missing = elim (Bool-cases (is_cursor_of worker s c)) [
    | inl here ↦ absurd (ground arith)
    | inr apart ↦
        (let later = find-remembered s t h.1 (ground arith) in rw later (rw h.0 (ground arith)))
  ]

  -- A cursor for `k` before the others, which are none of `k`.
  pub front-remembered :
      (s k : String) (c : WorkerCursor) (t : List WorkerCursor)
      → remembered k t ≡ none
      → str_eq c.worker_id worker ≡ true
      → upper c.symbol ≡ k
      → remembered s (c ∷ t)
        ≡ (if str_eq k s then some c.last_processed_timestamp else remembered s t)
  front-remembered s k c t gone mine named = elim (Bool-cases (str_eq k s)) [
    | inl here ↦
        (let e : k ≡ s = (eq_iff k s).0 here in
          rw here (
            ap (carried s c) (subst (λ x. remembered x t ≡ none) e gone)
            ∙ carried-own s c (is_of-true s c mine (named ∙ e))))
    | inr apart ↦ rw apart (carried-other s c (remembered s t) (is_of-false s k c named apart))
  ]

  abbrev at_time : ℕ → ℕ → WorkerCursor → WorkerCursor
  at_time timestamp now c = record c { last_processed_timestamp = timestamp; updated_at = now }

  pub moved-remembered :
      (s k : String) (timestamp now : ℕ) (t : List WorkerCursor) {c : WorkerCursor}
      → IsKeyed cursor_key t
      → IsSingle t
      → All IsUpper t
      → find (is_cursor_of worker k) t ≡ some c
      → remembered s (update cursor_key (at_time timestamp now c) t)
        ≡ (if str_eq k s then some timestamp else remembered s t)
  moved-remembered s k timestamp now [] keyed single h found = absurd (cc)
  moved-remembered s k timestamp now (x ∷ t) {c} keyed single h found =
      elim (Bool-cases (is_cursor_of worker k x)) [
        | inl here ↦
            (let e : x ≡ c = ground arith in
              let (mine, named) = is_cursor_of-parts worker k x here in
              let own : str_eq x.worker_id worker ≡ true = rw mine (str_eq_refl worker) in
              let gone : remembered k t ≡ none =
                subst (λ y. remembered y t ≡ none) named (single.0 own) in
              let head : update cursor_key (at_time timestamp now c) (x ∷ t)
                  ≡ at_time timestamp now x ∷ t =
                subst
                  (λ y.
                    update cursor_key (at_time timestamp now y) (x ∷ t)
                    ≡ at_time timestamp now x ∷ t)
                  e (ground arith) in
              ap (remembered s) head
              ∙ front-remembered s k (at_time timestamp now x) t gone own (h.0 ∙ named)
              ∙ (elim (Bool-cases (str_eq k s)) [
                | inl same ↦ rw same refl
                | inr other ↦ rw other (
                    sym
                      (carried-other s x (remembered s t) (is_of-false s k x (h.0 ∙ named) other)))
              ]))
        | inr apart ↦
            (let below : find (is_cursor_of worker k) t ≡ some c = ground arith in
              let differs = find-apart (is_cursor_of worker k) x t keyed below in
              let later = moved-remembered s k timestamp now t keyed.1 single.1 h.1 below in
              rw differs (
                ap (carried s x) later ∙ (elim (Bool-cases (str_eq k s)) [
                  | inl same ↦ rw same refl
                  | inr other ↦ rw other refl
                ])))
      ]

  pub moved-IsSingle :
      (k : String) (timestamp now : ℕ) (t : List WorkerCursor) {c : WorkerCursor}
      → IsKeyed cursor_key t
      → IsSingle t
      → All IsUpper t
      → find (is_cursor_of worker k) t ≡ some c
      → IsSingle (update cursor_key (at_time timestamp now c) t)
        × All IsUpper (update cursor_key (at_time timestamp now c) t)
  moved-IsSingle k timestamp now [] keyed single h found = absurd (cc)
  moved-IsSingle k timestamp now (x ∷ t) {c} keyed single h found =
      elim (Bool-cases (is_cursor_of worker k x)) [
        | inl here ↦
            (let e : x ≡ c = ground arith in
              subst
                (λ y.
                  IsSingle (update cursor_key (at_time timestamp now y) (x ∷ t))
                  × All IsUpper (update cursor_key (at_time timestamp now y) (x ∷ t)))
                e (let same : (x.id == x.id) ≡ true = ground arith in rw same (single, h)))
        | inr apart ↦
            (let below : find (is_cursor_of worker k) t ≡ some c = ground arith in
              let differs = find-apart (is_cursor_of worker k) x t keyed below in
              let (singles, uppers) = moved-IsSingle k timestamp now t keyed.1 single.1 h.1 below in
              rw differs (
                (
                  (λ own.
                      moved-remembered x.symbol k timestamp now t keyed.1 single.1 h.1 below
                      ∙ (elim (Bool-cases (str_eq k x.symbol)) [
                        | inl same ↦ absurd (
                            let e : k ≡ x.symbol = (eq_iff k x.symbol).0 same in
                            let alike =
                              subst (λ z. str_eq x.symbol z ≡ true) (sym e)
                                (str_eq_refl x.symbol) in
                            ground arith)
                        | inr other ↦ rw other (single.0 own)
                      ])),
                  singles,
                ),
                (h.0, uppers),
              ))
      ]
