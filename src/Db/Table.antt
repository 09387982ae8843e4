-- ===== src/Db/Table.antt =====
-- A table as the list of its rows, the newest first: the row of a key, and the update of the row
-- that has an object's key.
pub mod Once
pub mod Numbered
use hyperliquid_trading_aler.Prelude.{
  ℕ, ◌≡◌, refl, Option, none, some, List, [], ◌∷◌, arith, ◌==◌, length, if◌then◌else◌, ◌≢◌, All,
  subst, Bool-cases, inl, inr,
}

module _ {ℓ} {A : Type ℓ} (key : A → ℕ) where
  -- `select(T).where(T.id == k)` with `scalar_one_or_none()`, for the primary key
  abbrev pub row : ℕ → List A → Option A
  row k [] = none
  row k (a ∷ t) = if key a == k then some a else row k t

  -- The object of the session with the key of `b` takes the values of `b`.
  abbrev pub update : A → List A → List A
  update b [] = []
  update b (a ∷ t) = if key a == key b then b ∷ t else a ∷ update b t

  -- `delete`
  abbrev pub remove : ℕ → List A → List A
  remove k [] = []
  remove k (a ∷ t) = if key a == k then t else a ∷ remove k t

module _ {ℓ} {A : Type ℓ} (key : A → ℕ) where
  pub row-key : (k : ℕ) (t : List A) {a : A} → row key k t ≡ some a → key a ≡ k
  row-key k [] found = absurd (cc)
  row-key k (x ∷ t) {a} found = ground (arith, row-key k t {a = a})

  pub row-update_self :
      (b : A) (t : List A) {a : A}
      → row key (key b) t ≡ some a
      → row key (key b) (update key b t) ≡ some b
  row-update_self b [] h = absurd (ground arith)
  row-update_self b (x ∷ t) {a} h = ground (arith, row-update_self b t {a = a})

  pub row-update_ne :
      (k : ℕ) (b : A) (t : List A) → (key b ≡ k → ⊥) → row key k (update key b t) ≡ row key k t
  row-update_ne k b [] h = refl
  row-update_ne k b (a ∷ t) h = ground (arith, row-update_ne k b t h, h)

  pub length-update : (b : A) (t : List A) → length (update key b t) ≡ length t
  length-update b [] = refl
  length-update b (a ∷ t) = ground (arith, length-update b t)

  pub update-update :
      (b c : A) (t : List A) → key b ≡ key c → update key c (update key b t) ≡ update key c t
  update-update b c [] h = refl
  update-update b c (a ∷ t) h = ground (arith, update-update b c t)

-- No two rows share a key: the primary key of the table.
abbrev pub IsKeyed {ℓ} : {A : Type ℓ} → (A → ℕ) → List A → Type ℓ
IsKeyed key [] = Unit
IsKeyed key (a ∷ t) = (row key (key a) t ≡ none) × IsKeyed key t

module _ {ℓ} {A : Type ℓ} (key : A → ℕ) where
  row-none : (k : ℕ) (t : List A) → row key k t ≡ none → All (λ x. key x ≢ k) t
  row-none k [] h = tt
  row-none k (a ∷ t) h = (ground arith, row-none k t (ground arith))

  avoid :
      (P : A → Type 0) (k : ℕ) (t : List A) → All (λ x. key x ≢ k) t → All (λ x. P x → key x ≢ k) t
  avoid P k [] h = tt
  avoid P k (a ∷ t) h = ((λ _. h.0), avoid P k t h.1)

  -- In a keyed table what does not hold of the row of k holds of no other row with that key.
  pub others :
      (P : A → Type 0) (k : ℕ) (t : List A) {a : A}
      → IsKeyed key t
      → row key k t ≡ some a
      → ¬ P a
      → All (λ x. P x → key x ≢ k) t
  others P k [] keyed found no_ = tt
  others P k (x ∷ t) {a} (alone, keyed) found no_ = elim (Bool-cases (key x == k)) [
    | inl same ↦
        (let e : x ≡ a = ground arith in
          (
            (λ p _. no_ (subst P e p)),
            avoid P k t (row-none k t (subst (λ j. row key j t ≡ none) (ground arith) alone)),
          ))
    | inr differs ↦ ((λ _ e. absurd (ground arith)), others P k t keyed (ground arith) no_)
  ]
