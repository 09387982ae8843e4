-- ===== src/Worker/Candles.antt =====
-- `save_candle` and `update_cursor` (worker/main.py, worker/ingest/cursor.py).
use hyperliquid_trading_aler.Prelude.{
  ℕ, ◌≡◌, ◌≢◌, ◌⊎◌, refl, sym, subst, ◌∙◌, String, none, some, ok, List, [], ◌∷◌, arith, find, ◌==◌,
  str_eq_refl, Option-cases, inl, inr, Bool, true, false, Bool-cases, eq_iff,
}
use hyperliquid_trading_aler.Config.{WorkerSettings}
use hyperliquid_trading_aler.Numerics.{Numerics}
use hyperliquid_trading_aler.Db.{Env, World}
use hyperliquid_trading_aler.Db.Rows.{CandleModel, WorkerCursor}
use hyperliquid_trading_aler.Db.Table.{row, update, IsKeyed}
use hyperliquid_trading_aler.Ingest.Market.{Candle}
use hyperliquid_trading_aler.Ingest.Cursor.{is_cursor_of, get_cursor, update_cursor}
use hyperliquid_trading_aler.Worker.{same_candle, insert_candle, candle_row, save_candle}
use hyperliquid_trading_aler.Worker.Invariant.{IsConsistent, Kept}

module _ (env : Env) (num : Numerics) (candle : Candle num) (w : World) where
  abbrev pub stored : CandleModel
  stored = candle_row env num w.fresh (env.clock w.ticks) candle

  save-known :
      find (same_candle stored) w.db.candles ≢ none
      → let (result, w') = save_candle env num candle w in
        (result ≡ ok tt) × (w'.db ≡ w.committed) × (w'.committed ≡ w.committed)
  unfolding save_candle insert_candle
  save-known known = ground arith

  save-new :
      find (same_candle stored) w.db.candles ≡ none
      → let (result, w') = save_candle env num candle w in
        (result ≡ ok tt)
        × (w'.db ≡ record w.db { candles = stored ∷ w.db.candles })
        × (w'.committed ≡ w'.db)
  unfolding save_candle insert_candle
  save-new new_ = ground arith

  -- The same by the search of the unique constraint.
  pub save_candle_lem :
      IsConsistent w
      → Kept tt (save_candle env num candle w)
        × (let w' = (save_candle env num candle w).1 in
            ((find (same_candle stored) w.db.candles ≢ none) × (w'.db ≡ w.db))
            ⊎ ((find (same_candle stored) w.db.candles ≡ none)
                × (w'.db ≡ record w.db { candles = stored ∷ w.db.candles })))
  save_candle_lem kept = elim (Option-cases (find (same_candle stored) w.db.candles)) [
    | inl new_ ↦
        (let (fine, added, durable) = save-new new_ in
          (
            (
              fine,
              record {
                durable = durable;
                alerts = rw added kept.alerts;
                candles = rw added (new_, kept.candles);
              },
            ),
            inr (new_, added),
          ))
    | inr (c, found) ↦
        (let known : find (same_candle stored) w.db.candles ≢ none = λ e. cc in
          let (fine, back, durable) = save-known known in
          let same = back ∙ kept.durable in
          (
            (
              fine,
              record {
                durable = durable ∙ sym back;
                alerts = rw same kept.alerts;
                candles = rw same kept.candles;
              },
            ),
            inl (known, same),
          ))
  ]

  -- A candle of the same symbol, time and interval is stored.
  abbrev pub IsKnown : List CandleModel → Type 0
  IsKnown [] = ⊥
  IsKnown (c ∷ t) =
      ((c.symbol ≡ candle.symbol)
        × (c.timestamp ≡ candle.timestamp)
        × (c.interval_seconds ≡ candle.interval_seconds))
      ⊎ IsKnown t

  -- The row holds the candle, each number as the column stores it.
  pub record IsRowOf (row_ : CandleModel) : Type 0 where
    pub symbol : row_.symbol ≡ candle.symbol
    pub timestamp : row_.timestamp ≡ candle.timestamp
    pub open_ : row_.open_ ≡ num.numeric_of_decimal candle.open_
    pub high : row_.high ≡ num.numeric_of_decimal candle.high
    pub low : row_.low ≡ num.numeric_of_decimal candle.low
    pub close : row_.close ≡ num.numeric_of_decimal candle.close
    pub volume :
        row_.volume
        ≡ (elim candle.volume [ none ↦ none | some v ↦ some (num.numeric_of_decimal v) ])
    pub interval_seconds : row_.interval_seconds ≡ candle.interval_seconds

  stored-IsRowOf : IsRowOf stored
  stored-IsRowOf = record {
    symbol = refl;
    timestamp = refl;
    open_ = refl;
    high = refl;
    low = refl;
    close = refl;
    volume = elim candle.volume [ none ↦ refl | some v ↦ refl ];
    interval_seconds = refl;
  }

  find-IsKnown :
      (t : List CandleModel)
      → ((find (same_candle stored) t ≡ none) × ¬ IsKnown t)
        ⊎ ((find (same_candle stored) t ≢ none) × IsKnown t)
  find-IsKnown [] = inl (refl, λ h. h)
  find-IsKnown (c ∷ t) = elim (Bool-cases (same_candle stored c)) [
    | inl same ↦ inr (
      (λ e. ground arith),
      inl (sym ((eq_iff candle.symbol c.symbol).0 (ground arith)), ground arith, ground arith),
    )
    | inr other ↦
        (let apart : ¬ (
              (c.symbol ≡ candle.symbol)
              × (c.timestamp ≡ candle.timestamp)
              × (c.interval_seconds ≡ candle.interval_seconds)) =
            λ (s, t, i). ground (arith, other, (eq_iff candle.symbol c.symbol).1 (sym s)) in
          elim (find-IsKnown t) [
            | inl (e, new_) ↦
                inl (rw other e, (λ h. elim h [ inl here ↦ apart here | inr later ↦ new_ later ]))
            | inr (ne, known) ↦ inr (rw other ne, inr known)
          ])
  ]

  -- From a consistent world `save_candle` returns without an exception to a consistent world. A
  -- candle whose symbol, time and interval are stored already changes nothing in the database; any
  -- other adds exactly its own row.
  pub save_candle_once :
      IsConsistent w
      → Kept tt (save_candle env num candle w)
        × (let w' = (save_candle env num candle w).1 in
            (IsKnown w.db.candles × (w'.db ≡ w.db))
            ⊎ ((¬ IsKnown w.db.candles)
                × ((row_ : CandleModel) × IsRowOf row_
                    × (w'.db ≡ record w.db { candles = row_ ∷ w.db.candles }))))
  save_candle_once kept =
      let (fine, change) = save_candle_lem kept in
      (
        fine,
        (elim (find-IsKnown w.db.candles) [
          | inl (none_, new_) ↦ (elim change [
            | inl (known, _) ↦ absurd (known none_)
            | inr (_, added) ↦ inr (new_, (stored, stored-IsRowOf, added))
          ])
          | inr (some_, known) ↦ (elim change [
            | inl (_, same) ↦ inl (known, same)
            | inr (none_, _) ↦ absurd (some_ none_)
          ])
        ]),
      )

abbrev pub cursor_key : WorkerCursor → ℕ
cursor_key c = c.id

find-row :
    (p : WorkerCursor → Bool) (t : List WorkerCursor) {c : WorkerCursor}
    → find p t ≡ some c
    → row cursor_key c.id t ≢ none
find-row p [] found = cc
find-row p (x ∷ t) {c} found = elim (Bool-cases (p x)) [
  | inl holds ↦ λ e. ground arith
  | inr fails ↦ λ e. find-row p t {c = c} (ground arith) (ground arith)
]

find-holds :
    (p : WorkerCursor → Bool) (t : List WorkerCursor) {c : WorkerCursor}
    → find p t ≡ some c
    → p c ≡ true
find-holds p [] found = cc
find-holds p (x ∷ t) {c} found = elim (Bool-cases (p x)) [
  | inl holds ↦ (let e : x ≡ c = ground arith in subst (λ y. p y ≡ true) e holds)
  | inr fails ↦ find-holds p t (ground arith)
]

pub is_cursor_of-parts :
    (worker_id symbol : String) (c : WorkerCursor)
    → is_cursor_of worker_id symbol c ≡ true
    → (c.worker_id ≡ worker_id) × (c.symbol ≡ symbol)
is_cursor_of-parts worker_id symbol c h =
    ((eq_iff c.worker_id worker_id).0 (ground arith), (eq_iff c.symbol symbol).0 (ground arith))

-- A row that is found behind another has another identifier.
pub find-apart :
    (p : WorkerCursor → Bool) (x : WorkerCursor) (t : List WorkerCursor) {c : WorkerCursor}
    → IsKeyed cursor_key (x ∷ t)
    → find p t ≡ some c
    → (x.id == c.id) ≡ false
find-apart p x t {c} (alone, keyed) found = elim (Bool-cases (x.id == c.id)) [
  | inl same ↦
      absurd (find-row p t found (subst (λ j. row cursor_key j t ≡ none) (ground arith) alone))
  | inr apart ↦ apart
]

find-update_self :
    (p : WorkerCursor → Bool) (c' : WorkerCursor) (t : List WorkerCursor) {c : WorkerCursor}
    → IsKeyed cursor_key t
    → find p t ≡ some c
    → c.id ≡ c'.id
    → p c' ≡ true
    → find p (update cursor_key c' t) ≡ some c'
find-update_self p c' [] keyed found same holds = cc
find-update_self p c' (x ∷ t) {c} (alone, keyed) found same holds = elim (Bool-cases (p x)) [
  | inl first ↦ ground arith
  | inr fails ↦
      (let below : find p t ≡ some c = ground arith in
        let later = find-row p t below in
        let differs : (x.id == c'.id) ≡ false = elim (Bool-cases (x.id == c'.id)) [
          | inl eq_ ↦ absurd (later (subst (λ j. row cursor_key j t ≡ none) (ground arith) alone))
          | inr ne ↦ ne
        ] in
        rw differs (rw fails (find-update_self p c' t keyed below same holds)))
]

module _ (env : Env) (cfg : WorkerSettings) (symbol : String) (timestamp : ℕ) (w : World) where
  cursor-quiet :
      let (result, w') = update_cursor env cfg symbol timestamp w in
      (result ≡ ok tt)
      × (w'.db.alerts ≡ w.db.alerts)
      × (w'.db.candles ≡ w.db.candles)
      × (w'.committed ≡ w'.db)
  unfolding update_cursor
  cursor-quiet = ground arith

  pub update_cursor-Kept : IsConsistent w → Kept tt (update_cursor env cfg symbol timestamp w)
  update_cursor-Kept kept =
      let (fine, alerts, candles, durable) = cursor-quiet in
      (
        fine,
        record {
          durable = durable;
          alerts = rw alerts kept.alerts;
          candles = rw candles kept.candles;
        },
      )

  abbrev pub moved : WorkerCursor → WorkerCursor
  moved c = record c { last_processed_timestamp = timestamp; updated_at = env.clock w.ticks }

  abbrev pub opened : WorkerCursor
  opened = record {
    id = w.fresh;
    worker_id = cfg.worker_id;
    symbol = env.upper symbol;
    last_processed_timestamp = timestamp;
    updated_at = env.clock w.ticks;
  }

  pub cursor-moves :
      (c : WorkerCursor)
      → get_cursor env cfg symbol w.db ≡ some c
      → (update_cursor env cfg symbol timestamp w).1.db.cursors
        ≡ update cursor_key (moved c) w.db.cursors
  unfolding update_cursor
  cursor-moves c found = ground arith

  pub cursor-opens :
      get_cursor env cfg symbol w.db ≡ none
      → (update_cursor env cfg symbol timestamp w).1.db.cursors ≡ opened ∷ w.db.cursors
  unfolding update_cursor
  cursor-opens gone = ground arith

  -- After `update_cursor` the cursor of the symbol reads the timestamp, whether the symbol had a
  -- cursor before or not, when the identifiers of the cursors are distinct.
  pub cursor_reads_back :
      IsKeyed cursor_key w.db.cursors
      → let (result, w') = update_cursor env cfg symbol timestamp w in
        (c : WorkerCursor) × (get_cursor env cfg symbol w'.db ≡ some c)
        × (c.worker_id ≡ cfg.worker_id)
        × (c.symbol ≡ env.upper symbol)
        × (c.last_processed_timestamp ≡ timestamp)
        × (result ≡ ok tt)
        × (w'.committed ≡ w'.db)
  unfolding get_cursor
  cursor_reads_back keyed = elim (Option-cases (get_cursor env cfg symbol w.db)) [
    | inl gone ↦ (
      opened,
      rw (cursor-opens gone) (rw (str_eq_refl cfg.worker_id, str_eq_refl (env.upper symbol)) refl),
      refl,
      refl,
      refl,
      cursor-quiet.0,
      cursor-quiet.3,
    )
    | inr (c, found) ↦
        (let p = is_cursor_of cfg.worker_id (env.upper symbol) in
          let holds = find-holds p w.db.cursors found in
          let (worker, named) = is_cursor_of-parts cfg.worker_id (env.upper symbol) c holds in
          (
            moved c,
            rw (cursor-moves c found)
                (find-update_self p (moved c) w.db.cursors keyed found refl holds),
            worker,
            named,
            refl,
            cursor-quiet.0,
            cursor-quiet.3,
          ))
  ]
