-- ===== src/Db/Table/Once.antt =====
-- In a selection from a keyed table a key stands at most once, so a pass over it comes to the row once.
use hyperliquid_trading_aler.Prelude.{
  ℕ, zero, suc, ◌≤◌, ◌≡◌, ◌≢◌, refl, ap, subst, ◌⊎◌, inl, inr, Bool, Bool-cases, none, some, List,
  [], ◌∷◌, ◌++◌, arith, ◌==◌, if◌then◌else◌, All, select, take, sort_by, insert_by,
}
use hyperliquid_trading_aler.Db.Table.{row, IsKeyed}

module _ {ℓ} {A : Type ℓ} (key : A → ℕ) where
  -- How many rows have the key.
  abbrev pub count : ℕ → List A → ℕ
  count k [] = 0
  count k (x ∷ xs) = let rest = count k xs in if key x == k then suc rest else rest

  none-count : (k : ℕ) (t : List A) → row key k t ≡ none → count k t ≡ 0
  none-count k [] h = refl
  none-count k (x ∷ t) h = ground (arith, none-count k t)

  pub count-All : (k : ℕ) (t : List A) → count k t ≡ 0 → All (λ x. key x ≢ k) t
  count-All k [] h = tt
  count-All k (x ∷ t) h = (ground arith, count-All k t (ground arith))

  pub IsKeyed-count : (k : ℕ) (t : List A) → IsKeyed key t → count k t ≤ 1
  IsKeyed-count k [] h = omega arith
  IsKeyed-count k (x ∷ t) (alone, keyed) = elim (Bool-cases (key x == k)) [
    | inl same ↦
        (let e : key x ≡ k = ground arith in
          let rest = none-count k t (subst (λ j. row key j t ≡ none) e alone) in
          rw same (omega arith))
    | inr differs ↦ rw differs (IsKeyed-count k t keyed)
  ]

  count-insert_by :
      (by : A → ℕ) (k : ℕ) (x : A) (xs : List A) → count k (insert_by by x xs) ≡ count k (x ∷ xs)
  count-insert_by by k x [] = refl
  count-insert_by by k x (y ∷ ys) = ground (arith, count-insert_by by k x ys)

  pub count-sort_by : (by : A → ℕ) (k : ℕ) (xs : List A) → count k (sort_by by xs) ≡ count k xs
  count-sort_by by k [] = refl
  count-sort_by by k (x ∷ xs) =
      ground (arith, count-insert_by by k x (sort_by by xs), count-sort_by by k xs)

  pub count-select : (p : A → Bool) (k : ℕ) (xs : List A) → count k (select p xs) ≤ count k xs
  count-select p k [] = omega arith
  count-select p k (x ∷ xs) = ground (arith, count-select p k xs)

  pub count-take : (n k : ℕ) (xs : List A) → count k (take n xs) ≤ count k xs
  count-take zero k xs = omega arith
  count-take (suc n) k [] = omega arith
  count-take (suc n) k (x ∷ xs) = ground (arith, count-take n k xs)

  -- The one place of a key in a list, as far as `k` is concerned.
  abbrev pub Once : ℕ → List A → Type ℓ
  Once k xs =
      (x : A) × (before : List A) × (after : List A) × (xs ≡ before ++ x ∷ after)
      × (key x ≡ k)
      × All (λ y. key y ≢ k) before
      × All (λ y. key y ≢ k) after

  pub count-Once : (k : ℕ) (xs : List A) → count k xs ≤ 1 → All (λ x. key x ≢ k) xs ⊎ Once k xs
  count-Once k [] h = inl tt
  count-Once k (x ∷ xs) h = elim (Bool-cases (key x == k)) [
    | inl same ↦ inr (x, [], xs, refl, ground arith, tt, count-All k xs (ground arith))
    | inr differs ↦
        (let apart : key x ≢ k = ground arith in
          elim (count-Once k xs (ground arith)) [
            | inl no_ ↦ inl (apart, no_)
            | inr (y, before, after, e, here, b, a) ↦
                inr (y, x ∷ before, after, ap (λ r. x ∷ r) e, here, (apart, b), a)
          ])
  ]

  avoided : (k : ℕ) (t : List A) (a : A) → All (λ x. key x ≢ k) t → All (λ x. key x ≡ k → x ≡ a) t
  avoided k [] a h = tt
  avoided k (x ∷ t) a h = ((λ e. absurd (h.0 e)), avoided k t a h.1)

  -- In a keyed table whatever has the key is its row.
  pub only :
      (k : ℕ) (t : List A) {a : A}
      → IsKeyed key t
      → row key k t ≡ some a
      → All (λ x. key x ≡ k → x ≡ a) t
  only k [] keyed found = tt
  only k (x ∷ t) {a} (alone, keyed) found = elim (Bool-cases (key x == k)) [
    | inl same ↦
        (let e : x ≡ a = ground arith in
          (
            (λ _. e),
            avoided k t a (
                count-All k t
                  (none-count k t (subst (λ j. row key j t ≡ none) (ground arith) alone))),
          ))
    | inr differs ↦ ((λ here. absurd (ground arith)), only k t keyed (ground arith))
  ]
