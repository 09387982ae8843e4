-- ===== src/Api/Rules/Pages.antt =====
-- The pages of `list_rules` (api/routes/rules.py). Rows of equal creation time are taken in a fixed order.
use hyperliquid_trading_aler.Prelude.{
  ℕ, ◌≡◌, refl, String, Bool, true, Option, ok, List, [], ◌∷◌, arith, length, take, drop, All,
  All-take, All-sort_by, All-select, All-reverse, All-drop, All-weaken, ◌≤◌,
}
use hyperliquid_trading_aler.Db.{Env, World}
use hyperliquid_trading_aler.Db.Rows.{Rule}
use hyperliquid_trading_aler.Api.Rules.{page, matching, list_rules, is_complete, all_complete}

-- No field of the row is null that the response model wants.
abbrev pub IsComplete : Rule → Type 0
IsComplete r = is_complete r ≡ true

pub all_complete-All : (rules : List Rule) → All IsComplete rules → all_complete rules ≡ true
unfolding all_complete
all_complete-All [] h = refl
all_complete-All (r ∷ rules) h = rw (h.0, all_complete-All rules h.1) refl

module _ (env : Env) (symbol : Option String) (is_active : Option Bool) where
  matching-IsComplete :
      (w : World) → All IsComplete w.db.rules → All IsComplete (matching env symbol is_active w.db)
  unfolding matching
  matching-IsComplete w h = All-reverse IsComplete _ (
      All-sort_by IsComplete (λ (r : Rule). r.created_at) _
        (All-select IsComplete _ w.db.rules (All-weaken IsComplete _ w.db.rules h)))

  pub list_rules_lem :
      (limit offset : ℕ) (w : World)
      → 1 ≤ limit
      → limit ≤ 100
      → All IsComplete w.db.rules
      → let rows = matching env symbol is_active w.db in
        list_rules env symbol is_active limit offset w
        ≡ (ok (page (take limit (drop offset rows)) (length rows)), w)
  unfolding list_rules
  list_rules_lem limit offset w least most complete =
      let rows = matching env symbol is_active w.db in
      let shown : all_complete (take limit (drop offset rows)) ≡ true = all_complete-All _ (
        All-take IsComplete limit _
          (All-drop IsComplete offset rows (matching-IsComplete w complete))) in
      ground arith
