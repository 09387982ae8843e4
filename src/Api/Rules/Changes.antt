-- ===== src/Api/Rules/Changes.antt =====
-- What a request for an update asks of each field (api/models/rule.py, api/routes/rules.py).
use hyperliquid_trading_aler.Prelude.{
  ℕ, ◌≡◌, refl, Bool, true, false, ◌||◌, none, some, arith, String, Option, str_eq, eq_iff, ◌==◌,
}
use hyperliquid_trading_aler.Db.Rows.{Rule, Dict, Value}
use hyperliquid_trading_aler.Api.Rules.{RuleUpdate, is_changed, updated, or_old, differs, bool_eq}

-- What a field holds after a request: what the request sets, or else what it held.
abbrev pub Takes {ℓ} : {A : Type ℓ} → Option (Option A) → Option A → Option A → Type ℓ
Takes none old new_ = new_ ≡ old
Takes (some v) old new_ = new_ ≡ v

-- The name has no null.
abbrev pub TakesName : Option (Option String) → String → String → Type 0
TakesName (some (some s)) old new_ = new_ ≡ s
TakesName (some none) old new_ = Unit
TakesName none old new_ = new_ ≡ old

pub record IsUpdated (data_ : RuleUpdate) (now : ℕ) (r r' : Rule) : Type 0 where
  pub name : TakesName data_.name r.name r'.name
  pub config : Takes data_.config r.config r'.config
  pub cooldown_seconds : Takes data_.cooldown_seconds r.cooldown_seconds r'.cooldown_seconds
  pub discord_webhook_url :
      Takes data_.discord_webhook_url r.discord_webhook_url r'.discord_webhook_url
  pub generic_webhook_url :
      Takes data_.generic_webhook_url r.generic_webhook_url r'.generic_webhook_url
  pub is_active : Takes data_.is_active r.is_active r'.is_active
  pub updated_at : r'.updated_at ≡ now
  pub others :
      (r'.id ≡ r.id)
      × (r'.rule_type ≡ r.rule_type)
      × (r'.symbol ≡ r.symbol)
      × (r'.created_at ≡ r.created_at)

TakesName-updated :
    (d : Option (Option String)) (old : String)
    → TakesName d old (elim d [ some (some s) ↦ s | some none ↦ old | none ↦ old ])
TakesName-updated (some (some s)) old = refl
TakesName-updated (some none) old = tt
TakesName-updated none old = refl

or_old-Takes : {A : Type 0} (d : Option (Option A)) (old : Option A) → Takes d old (or_old d old)
or_old-Takes none old = refl
or_old-Takes (some v) old = refl

pub updated-IsUpdated :
    (data_ : RuleUpdate) (now : ℕ) (r : Rule) → IsUpdated data_ now r (updated data_ now r)
updated-IsUpdated data_ now r = record {
  name = TakesName-updated data_.name r.name;
  config = or_old-Takes data_.config r.config;
  cooldown_seconds = or_old-Takes data_.cooldown_seconds r.cooldown_seconds;
  discord_webhook_url = or_old-Takes data_.discord_webhook_url r.discord_webhook_url;
  generic_webhook_url = or_old-Takes data_.generic_webhook_url r.generic_webhook_url;
  is_active = or_old-Takes data_.is_active r.is_active;
  updated_at = refl;
  others = (refl, refl, refl, refl);
}

-- The request sets the field to nothing else than it holds, by the equality that is given.
abbrev pub Holds {ℓ} : {A : Type ℓ} → (A → A → Type 0) → Option (Option A) → Option A → Type 0
Holds Same none old = Unit
Holds Same (some none) none = Unit
Holds Same (some none) (some b) = ⊥
Holds Same (some (some a)) none = ⊥
Holds Same (some (some a)) (some b) = Same a b

pub record IsSame (same_config : Dict Value → Dict Value → Bool) (data_ : RuleUpdate) (r : Rule)
    : Type 0 where
  pub name : Holds (λ (a b : String). a ≡ b) data_.name (some r.name)
  pub config : Holds (λ (a b : Dict Value). same_config a b ≡ true) data_.config r.config
  pub cooldown_seconds : Holds (λ (a b : ℕ). a ≡ b) data_.cooldown_seconds r.cooldown_seconds
  pub discord_webhook_url :
      Holds (λ (a b : String). a ≡ b) data_.discord_webhook_url r.discord_webhook_url
  pub generic_webhook_url :
      Holds (λ (a b : String). a ≡ b) data_.generic_webhook_url r.generic_webhook_url
  pub is_active : Holds (λ (a b : Bool). a ≡ b) data_.is_active r.is_active

differs-Holds :
    {A : Type 0} (same : A → A → Bool) (Same : A → A → Type 0)
    → ((a b : A) → (same a b ≡ true → Same a b) × (Same a b → same a b ≡ true))
    → (d : Option (Option A)) (old : Option A)
    → (differs same d old ≡ false → Holds Same d old)
      × (Holds Same d old → differs same d old ≡ false)
differs-Holds same Same iff none old = ((λ h. tt), (λ h. refl))
differs-Holds same Same iff (some none) none = ((λ h. tt), (λ h. refl))
differs-Holds same Same iff (some none) (some b) = ((λ h. absurd (cc)), (λ h. absurd h))
differs-Holds same Same iff (some (some a)) none = ((λ h. absurd (cc)), (λ h. absurd h))
differs-Holds same Same iff (some (some a)) (some b) =
    ((λ h. (iff a b).0 (ground arith)), (λ h. rw ((iff a b).1 h) refl))

bool_eq_iff : (a b : Bool) → (bool_eq a b ≡ true → a ≡ b) × (a ≡ b → bool_eq a b ≡ true)
bool_eq_iff a b = ground arith

nat_eq_iff : (a b : ℕ) → ((a == b) ≡ true → a ≡ b) × (a ≡ b → (a == b) ≡ true)
nat_eq_iff a b = ((λ h. ground arith), (λ h. ground arith))

ors_false :
    (a b c d e f : Bool)
    → (a || (b || (c || (d || (e || f))))) ≡ false
    → (a ≡ false) × (b ≡ false) × (c ≡ false) × (d ≡ false) × (e ≡ false) × (f ≡ false)
ors_false a b c d e f h = ground arith

module _ (same_config : Dict Value → Dict Value → Bool) (data_ : RuleUpdate) (r : Rule) where
  by_name :
      (differs str_eq data_.name (some r.name) ≡ false
        → Holds (λ (a b : String). a ≡ b) data_.name (some r.name))
      × (Holds (λ (a b : String). a ≡ b) data_.name (some r.name)
          → differs str_eq data_.name (some r.name) ≡ false)
  by_name = differs-Holds str_eq _ eq_iff data_.name (some r.name)

  pub is_changed-IsSame : is_changed same_config data_ r ≡ false → IsSame same_config data_ r
  unfolding is_changed
  is_changed-IsSame h =
      let (h1, h2, h3, h4, h5, h6) = ors_false _ _ _ _ _ _ h in
      record {
        name = by_name.0 h1;
        config =
            (differs-Holds same_config _ (λ a b. ((λ e. e), (λ e. e))) data_.config r.config).0 h2;
        cooldown_seconds =
            (differs-Holds ◌==◌ _ nat_eq_iff data_.cooldown_seconds r.cooldown_seconds).0 h3;
        discord_webhook_url =
            (differs-Holds str_eq _ eq_iff data_.discord_webhook_url r.discord_webhook_url).0 h4;
        generic_webhook_url =
            (differs-Holds str_eq _ eq_iff data_.generic_webhook_url r.generic_webhook_url).0 h5;
        is_active = (differs-Holds bool_eq _ bool_eq_iff data_.is_active r.is_active).0 h6;
      }

  pub IsSame-is_changed : IsSame same_config data_ r → is_changed same_config data_ r ≡ false
  unfolding is_changed
  IsSame-is_changed s =
      rw
        (
          by_name.1 s.name,
          (differs-Holds same_config _ (λ a b. ((λ e. e), (λ e. e))) data_.config r.config).1
              s.config,
          (differs-Holds ◌==◌ _ nat_eq_iff data_.cooldown_seconds r.cooldown_seconds).1
              s.cooldown_seconds,
          (differs-Holds str_eq _ eq_iff data_.discord_webhook_url r.discord_webhook_url).1
              s.discord_webhook_url,
          (differs-Holds str_eq _ eq_iff data_.generic_webhook_url r.generic_webhook_url).1
              s.generic_webhook_url,
          (differs-Holds bool_eq _ bool_eq_iff data_.is_active r.is_active).1 s.is_active,
        )
        refl
