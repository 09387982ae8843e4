-- ===== src/Db/Table/Numbered.antt =====
-- Primary keys that are drawn from a counter: distinct, and all below it.
use hyperliquid_trading_aler.Prelude.{
  ℕ, ◌≤◌, ◌<◌, ◌≡◌, refl, sym, subst, inl, inr, Bool, Bool-cases, none, some, List, [], ◌∷◌, arith,
  ◌==◌, All, select,
}
use hyperliquid_trading_aler.Db.Table.{row, update, remove, IsKeyed}

module _ {ℓ} {A : Type ℓ} (key : A → ℕ) where
  pub record IsNumbered (n : ℕ) (t : List A) : Type ℓ where
    pub keyed : IsKeyed key t
    pub below : All (λ x. key x < n) t

  below-weaken : (m n : ℕ) (t : List A) → m ≤ n → All (λ x. key x < m) t → All (λ x. key x < n) t
  below-weaken m n [] le h = tt
  below-weaken m n (x ∷ t) le h = (omega (arith, h.0), below-weaken m n t le h.1)

  pub IsNumbered-weaken : (m n : ℕ) (t : List A) → m ≤ n → IsNumbered m t → IsNumbered n t
  IsNumbered-weaken m n t le h = record { keyed = h.keyed; below = below-weaken m n t le h.below }

  below-row : (n : ℕ) (t : List A) → All (λ x. key x < n) t → row key n t ≡ none
  below-row n [] h = refl
  below-row n (x ∷ t) h = ground (arith, below-row n t h.1, h.0)

  -- A row with the number drawn next.
  pub IsNumbered-cons :
      (n m : ℕ) (x : A) (t : List A) → key x ≡ n → n < m → IsNumbered n t → IsNumbered m (x ∷ t)
  IsNumbered-cons n m x t same lt h = record {
    keyed = (subst (λ k. row key k t ≡ none) (sym same) (below-row n t h.below), h.keyed);
    below = (omega arith, below-weaken n m t (omega arith) h.below);
  }

  row-update-none :
      (k : ℕ) (b : A) (t : List A) → row key k t ≡ none → row key k (update key b t) ≡ none
  row-update-none k b [] h = refl
  row-update-none k b (x ∷ t) h = ground (arith, row-update-none k b t)

  update-IsKeyed : (b : A) (t : List A) → IsKeyed key t → IsKeyed key (update key b t)
  update-IsKeyed b [] h = tt
  update-IsKeyed b (x ∷ t) (alone, h) = elim (Bool-cases (key x == key b)) [
    | inl same ↦ rw same (subst (λ k. row key k t ≡ none) (ground arith) alone, h)
    | inr differs ↦ rw differs (row-update-none (key x) b t alone, update-IsKeyed b t h)
  ]

  update-below :
      (n : ℕ) (b : A) (t : List A) → All (λ x. key x < n) t → All (λ x. key x < n) (update key b t)
  update-below n b [] h = tt
  update-below n b (x ∷ t) h = elim (Bool-cases (key x == key b)) [
    | inl same ↦ rw same ((let e : key x ≡ key b = ground arith in omega (arith, h.0)), h.1)
    | inr differs ↦ rw differs (h.0, update-below n b t h.1)
  ]

  pub update-IsNumbered :
      (n : ℕ) (b : A) (t : List A) → IsNumbered n t → IsNumbered n (update key b t)
  update-IsNumbered n b t h = record {
    keyed = update-IsKeyed b t h.keyed;
    below = update-below n b t h.below;
  }

  row-select-none :
      (k : ℕ) (p : A → Bool) (t : List A) → row key k t ≡ none → row key k (select p t) ≡ none
  row-select-none k p [] h = refl
  row-select-none k p (x ∷ t) h = ground (arith, row-select-none k p t)

  select-IsKeyed : (p : A → Bool) (t : List A) → IsKeyed key t → IsKeyed key (select p t)
  select-IsKeyed p [] h = tt
  select-IsKeyed p (x ∷ t) (alone, h) = elim (Bool-cases (p x)) [
    | inl in_ ↦ rw in_ (row-select-none (key x) p t alone, select-IsKeyed p t h)
    | inr out ↦ rw out (select-IsKeyed p t h)
  ]

  select-below :
      (n : ℕ) (p : A → Bool) (t : List A)
      → All (λ x. key x < n) t
      → All (λ x. key x < n) (select p t)
  select-below n p [] h = tt
  select-below n p (x ∷ t) h = elim (Bool-cases (p x)) [
    | inl in_ ↦ rw in_ (h.0, select-below n p t h.1)
    | inr out ↦ rw out (select-below n p t h.1)
  ]

  pub select-IsNumbered :
      (n : ℕ) (p : A → Bool) (t : List A) → IsNumbered n t → IsNumbered n (select p t)
  select-IsNumbered n p t h = record {
    keyed = select-IsKeyed p t h.keyed;
    below = select-below n p t h.below;
  }

  row-remove-none : (k j : ℕ) (t : List A) → row key k t ≡ none → row key k (remove key j t) ≡ none
  row-remove-none k j [] h = refl
  row-remove-none k j (x ∷ t) h = ground (arith, row-remove-none k j t)

  remove-IsKeyed : (j : ℕ) (t : List A) → IsKeyed key t → IsKeyed key (remove key j t)
  remove-IsKeyed j [] h = tt
  remove-IsKeyed j (x ∷ t) (alone, h) = elim (Bool-cases (key x == j)) [
    | inl same ↦ rw same h
    | inr differs ↦ rw differs (row-remove-none (key x) j t alone, remove-IsKeyed j t h)
  ]

  remove-below :
      (n j : ℕ) (t : List A) → All (λ x. key x < n) t → All (λ x. key x < n) (remove key j t)
  remove-below n j [] h = tt
  remove-below n j (x ∷ t) h = elim (Bool-cases (key x == j)) [
    | inl same ↦ rw same h.1
    | inr differs ↦ rw differs (h.0, remove-below n j t h.1)
  ]

  pub remove-IsNumbered : (n j : ℕ) (t : List A) → IsNumbered n t → IsNumbered n (remove key j t)
  remove-IsNumbered n j t h = record {
    keyed = remove-IsKeyed j t h.keyed;
    below = remove-below n j t h.below;
  }

  -- In a keyed table every row is the row of its key.
  grown-rows :
      (x : A) (t xs : List A)
      → row key (key x) t ≡ none
      → All (λ y. row key (key y) t ≡ some y) xs
      → All (λ y. row key (key y) (x ∷ t) ≡ some y) xs
  grown-rows x t [] alone h = tt
  grown-rows x t (y ∷ xs) alone h = (
    elim (Bool-cases (key x == key y)) [
      | inl same ↦
          (let none_ : row key (key y) t ≡ none =
              subst (λ k. row key k t ≡ none) (ground arith) alone in
            let some_ : row key (key y) t ≡ some y = h.0 in absurd (cc))
      | inr differs ↦ rw differs h.0
    ],
    grown-rows x t xs alone h.1,
  )

  pub keyed-rows : (t : List A) → IsKeyed key t → All (λ x. row key (key x) t ≡ some x) t
  keyed-rows [] h = tt
  keyed-rows (x ∷ t) (alone, h) = (ground arith, grown-rows x t t alone (keyed-rows t h))
