-- ===== src/Prelude/Reorder.antt =====
-- Lists in another order: what a selection and a sort make of them.
use Prim.Native.Nat.{ℕ, suc}
use mathlib.Core.Path.{◌≡◌, refl, sym, ap, subst, ◌∙◌}
use mathlib.Core.Logic.{◌≢◌, inl, inr}
use mathlib.Core.Bool.{Bool}
use mathlib.Core.List.{List, [], ◌∷◌, Permᴰ}
use mathlib.Core.List.Permᴰ
use native.Mathlib.Omega.{arith}
use hyperliquid_trading_aler.Prelude.Tests.{Bool-cases}
use hyperliquid_trading_aler.Prelude.Lists.{length, select, insert_by, sort_by, All}

module _ {ℓ} {A : Type ℓ} where
  pub length-Permᴰ : {xs ys : List A} → Permᴰ xs ys → length xs ≡ length ys
  length-Permᴰ Permᴰ.nil = refl
  length-Permᴰ (Permᴰ.cons e d) = ap suc (length-Permᴰ d)
  length-Permᴰ (Permᴰ.swap e₁ e₂) = refl
  length-Permᴰ (Permᴰ.trans d₁ d₂) = length-Permᴰ d₁ ∙ length-Permᴰ d₂

  pub All-Permᴰ {κ} : (P : A → Type κ) {xs ys : List A} → Permᴰ xs ys → All P xs → All P ys
  All-Permᴰ P Permᴰ.nil h = tt
  All-Permᴰ P (Permᴰ.cons e d) h = (subst P e h.0, All-Permᴰ P d h.1)
  All-Permᴰ P (Permᴰ.swap e₁ e₂) h = (subst P e₂ h.1.0, (subst P e₁ h.0, h.1.1))
  All-Permᴰ P (Permᴰ.trans d₁ d₂) h = All-Permᴰ P d₂ (All-Permᴰ P d₁ h)

  select_swap :
      (p : A → Bool) (a b : A) (l : List A) → Permᴰ (select p (a ∷ b ∷ l)) (select p (b ∷ a ∷ l))
  select_swap p a b l = elim (Bool-cases (p a)) [
    | inl one ↦ (elim (Bool-cases (p b)) [
      | inl two ↦ rw (one, two) (Permᴰ.swap refl refl)
      | inr two ↦ rw (one, two) (Permᴰ.refl (a ∷ select p l))
    ])
    | inr one ↦ (elim (Bool-cases (p b)) [
      | inl two ↦ rw (one, two) (Permᴰ.refl (b ∷ select p l))
      | inr two ↦ rw (one, two) (Permᴰ.refl (select p l))
    ])
  ]

  pub select-Permᴰ :
      (p : A → Bool) {xs ys : List A} → Permᴰ xs ys → Permᴰ (select p xs) (select p ys)
  select-Permᴰ p Permᴰ.nil = Permᴰ.nil
  select-Permᴰ p (Permᴰ.cons {a = a} {l₁ = l₁} {l₂ = l₂} e d) =
      subst (λ b. Permᴰ (select p (a ∷ l₁)) (select p (b ∷ l₂))) e
        (elim (Bool-cases (p a)) [
          | inl passes ↦ rw passes (Permᴰ.cons refl (select-Permᴰ p d))
          | inr fails ↦ rw fails (select-Permᴰ p d)
        ])
  select-Permᴰ p (Permᴰ.swap {a = a} {b = b} {a' = a'} {l = l} e₁ e₂) =
      subst (λ y. Permᴰ (select p (a ∷ b ∷ l)) (select p (a' ∷ y ∷ l))) e₁
        (subst (λ x. Permᴰ (select p (a ∷ b ∷ l)) (select p (x ∷ a ∷ l))) e₂ (select_swap p a b l))
  select-Permᴰ p (Permᴰ.trans d₁ d₂) = Permᴰ.trans (select-Permᴰ p d₁) (select-Permᴰ p d₂)

module _ {ℓ} {A : Type ℓ} (key : A → ℕ) where
  -- No two elements share a key.
  abbrev pub IsApart : List A → Type ℓ
  IsApart [] = Unit
  IsApart (x ∷ xs) = All (λ y. key x ≢ key y) xs × IsApart xs

  insert_by-insert_by :
      (x y : A) (zs : List A)
      → key x ≢ key y
      → insert_by key x (insert_by key y zs) ≡ insert_by key y (insert_by key x zs)
  insert_by-insert_by x y [] h = ground arith
  insert_by-insert_by x y (z ∷ zs) h = ground (arith, insert_by-insert_by x y zs h)

  pub IsApart-Permᴰ : {xs ys : List A} → Permᴰ xs ys → IsApart xs → IsApart ys
  IsApart-Permᴰ Permᴰ.nil h = tt
  IsApart-Permᴰ (Permᴰ.cons {l₂ = l₂} e d) h =
      (subst (λ x. All (λ y. key x ≢ key y) l₂) e (All-Permᴰ _ d h.0), IsApart-Permᴰ d h.1)
  IsApart-Permᴰ (Permᴰ.swap {a = a} {b = b} {a' = a'} {l = l} e₁ e₂) h =
      subst (λ y. IsApart (a' ∷ y ∷ l)) e₁
        (subst (λ x. IsApart (x ∷ a ∷ l)) e₂ (((λ e. h.0.0 (sym e)), h.1.0), (h.0.1, h.1.1)))
  IsApart-Permᴰ (Permᴰ.trans d₁ d₂) h = IsApart-Permᴰ d₂ (IsApart-Permᴰ d₁ h)

  pub sort_by-Permᴰ : {xs ys : List A} → Permᴰ xs ys → IsApart xs → sort_by key xs ≡ sort_by key ys
  sort_by-Permᴰ Permᴰ.nil h = refl
  sort_by-Permᴰ (Permᴰ.cons {b = b} {l₁ = l₁} e d) h =
      ap (λ x. insert_by key x (sort_by key l₁)) e ∙ ap (insert_by key b) (sort_by-Permᴰ d h.1)
  sort_by-Permᴰ (Permᴰ.swap {a = a} {b = b} {a' = a'} {l = l} e₁ e₂) h =
      let s = sort_by key l in
      insert_by-insert_by a b s h.0.0
      ∙ ap (λ x. insert_by key x (insert_by key a s)) e₂
      ∙ ap (λ y. insert_by key a' (insert_by key y s)) e₁
  sort_by-Permᴰ (Permᴰ.trans d₁ d₂) h = sort_by-Permᴰ d₁ h ∙ sort_by-Permᴰ d₂ (IsApart-Permᴰ d₁ h)
