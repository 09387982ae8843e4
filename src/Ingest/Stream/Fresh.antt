-- ===== src/Ingest/Stream/Fresh.antt =====
-- What the WebSocket loop yields (worker/ingest/hyperliquid.py): no candle that is not newer than all
-- it has seen of the symbol.
use hyperliquid_trading_aler.Prelude.{
  ℕ, ◌+◌, ◌<◌, ◌≡◌, refl, sym, ◌∙◌, ap, subst, ◌⊎◌, inl, inr, String, Bool, true, false, not,
  Option, none, some, Result, ok, err, >>=-eq-ok, ◌>>=◌, List, [], ◌∷◌, ◌++◌, arith, str_eq,
  Bool-cases, if◌then◌else◌, str_eq_refl, ok-injective,
}
use hyperliquid_trading_aler.Prelude.Int.{ℤ}
use hyperliquid_trading_aler.Numerics.{Numerics}
use hyperliquid_trading_aler.Db.Rows.{Dict, Value, text}
use hyperliquid_trading_aler.Ingest.Market.{
  Candle, dict, other, build_candle, candle_of_values, candle_from_dict, make_candle,
  none_on_bad_value, Item,
}
use hyperliquid_trading_aler.Ingest.Stream.{
  LastSeen, last_seen, see, Message, message, bad_json, not_object, Received, frame, timeout,
  broken, upper_text, coin_of, is_closed, is_old, emit, handle_data, handle_payload, proceed,
  handle_message, Session, receive,
}

pub last_seen-see : (s : String) (t : ℕ) (seen : LastSeen) → last_seen s (see s t seen) ≡ some t
last_seen-see s t [] = rw str_eq_refl
last_seen-see s t ((k, u) ∷ d) = elim (Bool-cases (str_eq k s)) [
  | inl same ↦ rw same (rw same)
  | inr differs ↦ rw differs (rw differs (last_seen-see s t d))
]

-- A timestamp is later than the last one, if there is a last one.
abbrev pub IsNewer : Option ℕ → ℕ → Type 0
IsNewer none t = Unit
IsNewer (some prev) t = prev < t

module _ (num : Numerics) (upper : String → String) where
  pub not_old-IsNewer : (o : Option ℕ) (t : ℕ) → is_old num upper o t ≡ false → IsNewer o t
  not_old-IsNewer none t h = tt
  not_old-IsNewer (some prev) t h = ground arith

  -- Each candle is newer than what was seen of its symbol, names it in upper case, and is itself
  -- seen by the next.
  abbrev pub IsFresh : LastSeen → List (Candle num) → Type 0
  IsFresh seen [] = Unit
  IsFresh seen (c ∷ cs) =
      IsNewer (last_seen c.symbol seen) c.timestamp
      × (upper c.symbol ≡ c.symbol)
      × IsFresh (see c.symbol c.timestamp seen) cs

  -- The dict of the last timestamps after the candles.
  abbrev pub seen_after : List (Candle num) → LastSeen → LastSeen
  seen_after [] seen = seen
  seen_after (c ∷ cs) seen = seen_after cs (see c.symbol c.timestamp seen)

  pub seen_after-append :
      (xs ys : List (Candle num)) (seen : LastSeen)
      → seen_after (xs ++ ys) seen ≡ seen_after ys (seen_after xs seen)
  seen_after-append [] ys seen = refl
  seen_after-append (x ∷ xs) ys seen = seen_after-append xs ys (see x.symbol x.timestamp seen)

  -- What one message does.
  abbrev pub Emitted : LastSeen → LastSeen × List (Candle num) → Type 0
  Emitted seen out =
      (out ≡ (seen, []))
      ⊎ ((c : Candle num) × IsNewer (last_seen c.symbol seen) c.timestamp
          × (upper c.symbol ≡ c.symbol)
          × (out ≡ (see c.symbol c.timestamp seen, c ∷ [])))

  build_candle-symbol :
      (coin : String) (t o h l c v : Value) (seconds : ℕ) {k : Candle num}
      → build_candle num upper coin t o h l c v seconds ≡ ok k
      → k.symbol ≡ upper (upper coin)
  unfolding build_candle make_candle
  build_candle-symbol coin t o h l c v seconds e = ground arith

  guarded-some :
      (b b' : Bool) (r : Result (Candle num)) {k : Candle num}
      → (if b then ok none else if b' then ok none else none_on_bad_value r) ≡ ok (some k)
      → r ≡ ok k
  guarded-some b b' r e = ground arith

  candle_of_values-symbol :
      (coin : String) (t o h l c v : Value) (seconds : ℕ) {k : Candle num}
      → candle_of_values num upper coin t o h l c v seconds ≡ ok (some k)
      → k.symbol ≡ upper (upper coin)
  unfolding candle_of_values
  candle_of_values-symbol coin t o h l c v seconds {k} e =
      build_candle-symbol coin t o h l c v seconds {k = k} (guarded-some _ _ _ e)

  pub candle_from_dict-symbol :
      (coin : String) (d : Dict Value) (seconds : ℕ) {k : Candle num}
      → candle_from_dict num upper coin d seconds ≡ ok (some k)
      → k.symbol ≡ upper (upper coin)
  unfolding candle_from_dict
  candle_from_dict-symbol coin d seconds e = candle_of_values-symbol coin _ _ _ _ _ _ seconds e

  emit-Emitted :
      (coin : String) (o : Option (Candle num)) (seen : LastSeen)
      → upper coin ≡ coin
      → ((c : Candle num) → o ≡ some c → c.symbol ≡ coin)
      → Emitted seen (emit num upper coin o seen)
  unfolding emit
  emit-Emitted coin none seen same h = inl refl
  emit-Emitted coin (some c) seen same h =
      subst (λ s. Emitted seen (emit num upper s (some c) seen)) (h c refl)
        (elim (Bool-cases (is_old num upper (last_seen c.symbol seen) c.timestamp)) [
          | inl old ↦ inl (rw old)
          | inr new ↦
              inr (c, not_old-IsNewer _ _ new, ap upper (h c refl) ∙ same ∙ sym (h c refl), rw new)
        ])

  -- Python's `upper` changes nothing that it has made.
  module _ (upper_idem : (s : String) → upper (upper s) ≡ upper s) where
    upper_text-upper :
        (v : Value) {coin : String} → upper_text num upper v ≡ ok coin → upper coin ≡ coin
    upper_text-upper (text s) {coin} h =
        let e : upper s ≡ coin = cc in subst (λ c. upper c ≡ c) e (upper_idem s)
    upper_text-upper _ h = cc

    coin_of-upper :
        (d : Dict Value) {coin : String} → coin_of num upper d ≡ ok coin → upper coin ≡ coin
    unfolding coin_of
    coin_of-upper d h = upper_text-upper _ h

    closed-Emitted :
        (coin : String) (d : Dict Value) (seen : LastSeen) (closed : Bool)
        {out : LastSeen × List (Candle num)}
        → upper coin ≡ coin
        → (if not closed
            then ok (seen, [])
            else candle_from_dict num upper coin d 900 >>= λ o. ok (emit num upper coin o seen))
          ≡ ok out
        → Emitted seen out
    closed-Emitted coin d seen false same h = inl (cc)
    closed-Emitted coin d seen true {out} same h =
        let (o, eo, e) = >>=-eq-ok (candle_from_dict num upper coin d 900) _ h in
        subst (Emitted seen) (ok-injective e) (
          emit-Emitted coin o seen same
            (λ c is_c. candle_from_dict-symbol coin d 900 (eo ∙ ap ok is_c) ∙ ap upper same ∙ same))

    handle_data-Emitted :
        (d : Dict Value) (now : ℤ) (seen : LastSeen) {out : LastSeen × List (Candle num)}
        → handle_data num upper d now seen ≡ ok out
        → Emitted seen out
    unfolding handle_data
    handle_data-Emitted d now seen {out} h =
        let (coin, ec, h1) = >>=-eq-ok (coin_of num upper d) _ h in
        elim (Bool-cases (str_eq coin "")) [
          | inl blank ↦ inl (sym (ok-injective (rw blank at h1)))
          | inr named ↦
              (let (closed, ed, h2) = >>=-eq-ok (is_closed num upper d now) _ (rw named at h1) in
                closed-Emitted coin d seen closed (coin_of-upper d ec) h2)
        ]

    handle_payload-Emitted :
        (payload : Item) (now : ℤ) (seen : LastSeen) {out : LastSeen × List (Candle num)}
        → handle_payload num upper payload now seen ≡ ok out
        → Emitted seen out
    unfolding handle_payload
    handle_payload-Emitted other now seen h = inl (sym (ok-injective h))
    handle_payload-Emitted (dict d) now seen h = handle_data-Emitted d now seen h

    routed-Emitted :
        (b b' : Bool) (payload : Item) (now : ℤ) (seen : LastSeen)
        {out : LastSeen × List (Candle num)}
        → (if b
            then ok (seen, [])
            else if not b'
            then ok (seen, [])
            else handle_payload num upper payload now seen)
          ≡ ok out
        → Emitted seen out
    routed-Emitted true b' payload now seen h = inl (sym (ok-injective h))
    routed-Emitted false false payload now seen h = inl (sym (ok-injective h))
    routed-Emitted false true payload now seen h = handle_payload-Emitted payload now seen h

    pub handle_message-Emitted :
        (m : Message) (now : ℤ) (seen : LastSeen) {out : LastSeen × List (Candle num)}
        → handle_message num upper m now seen ≡ ok out
        → Emitted seen out
    unfolding handle_message
    handle_message-Emitted bad_json now seen h = inl (sym (ok-injective h))
    handle_message-Emitted not_object now seen h = inl (sym (ok-injective h))
    handle_message-Emitted (message channel payload) now seen h =
        routed-Emitted _ _ payload now seen h

    proceed-IsFresh :
        (r : Result (LastSeen × List (Candle num))) (rest : LastSeen → Session num upper)
        (seen : LastSeen)
        → ((out : LastSeen × List (Candle num)) → r ≡ ok out → Emitted seen out)
        → ((seen' : LastSeen) → IsFresh seen' (rest seen').yielded)
        → IsFresh seen (proceed num upper r rest seen).yielded
    unfolding proceed
    proceed-IsFresh (err e) rest seen step later = tt
    proceed-IsFresh (ok (seen', cs)) rest seen step later = elim (step (seen', cs) refl) [
      | inl same ↦
          subst (λ (o : LastSeen × List (Candle num)). IsFresh seen (o.1 ++ (rest o.0).yielded))
            (sym same) (later seen)
      | inr (c, new, named, same) ↦
          subst (λ (o : LastSeen × List (Candle num)). IsFresh seen (o.1 ++ (rest o.0).yielded))
            (sym same) (new, named, later (see c.symbol c.timestamp seen))
    ]

    -- On one connection every candle that the frames yield has its symbol in upper case and is
    -- newer than every candle of the symbol that was seen before, those yielded earlier included,
    -- whatever the frames are and however the loop ends, given that a text in upper case is its own
    -- upper case.
    pub receive-IsFresh :
        (frames : List Received) (clock : ℕ → ℤ) (t : ℕ) (seen : LastSeen)
        → IsFresh seen (receive num upper frames clock t seen).yielded
    unfolding receive
    receive-IsFresh [] clock t seen = tt
    receive-IsFresh (timeout ∷ rest) clock t seen = tt
    receive-IsFresh (broken e ∷ rest) clock t seen = tt
    receive-IsFresh (frame m ∷ rest) clock t seen =
        proceed-IsFresh (handle_message num upper m (clock t) seen)
          (receive num upper rest clock (t + 1)) seen
          (λ out e. handle_message-Emitted m (clock t) seen e)
          (λ seen'. receive-IsFresh rest clock (t + 1) seen')
