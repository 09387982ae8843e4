-- ===== src/Startup.antt =====
-- wait_for_db.py: the start of a container waits for the database and its tables.
use hyperliquid_trading_aler.Prelude.{
  ℕ, zero, suc, ◌+◌, ◌<◌, ◌≤◌, ◌≡◌, ◌⊎◌, inl, inr, refl, Bool, true, false, Bool-cases, Exn, arith,
  if◌then◌else◌, ap, subst, ◌∙◌, ◌==◌, ltb,
}

-- What connecting and the query for the table `rules` give at a try.
pub data Probe : Type 0 where
  failed : Exn → Probe
  connected : Bool → Probe

-- `if table_exists: return True`
abbrev pub is_ready : Probe → Bool
is_ready (failed e) = false
is_ready (connected table_exists) = table_exists

-- `for i in range(60)`: whether a try found the table, and the number of the next try. Every other try
-- is followed by a second of sleep. The second argument is the number of tries left.
unfoldable pub tries : (ℕ → Probe) → ℕ → ℕ → Bool × ℕ
tries probe zero t = (false, t)
tries probe (suc n) t =
    let rest = tries probe n (t + 1) in if is_ready (probe t) then (true, t + 1) else rest

-- `check_with_psycopg2`: without the driver it gives False at once.
unfoldable pub check_with_psycopg2 : Bool → (ℕ → Probe) → ℕ → Bool × ℕ
check_with_psycopg2 installed probe t = if installed then tries probe 60 t else (false, t)

-- `check_with_asyncpg`, whose loop is the same
unfoldable pub check_with_asyncpg : Bool → (ℕ → Probe) → ℕ → Bool × ℕ
check_with_asyncpg installed probe t = if installed then tries probe 60 t else (false, t)

-- The script: its exit code, and the number of tries made.
unfoldable pub wait_for_db : Bool → Bool → (ℕ → Probe) → ℕ × ℕ
wait_for_db psycopg2 asyncpg probe =
    let (found, t) = check_with_psycopg2 psycopg2 probe 0 in
    let (found', t') = check_with_asyncpg asyncpg probe t in
    if found then (0, t) else if found' then (0, t') else (1, t')

-- A try that connects and finds the table.
abbrev pub Finds : Probe → Type 0
Finds p = p ≡ connected true

ready-Finds : (p : Probe) → is_ready p ≡ true → Finds p
ready-Finds (failed e) h = absurd (cc)
ready-Finds (connected b) h = ap connected h

waiting-lem : (p : Probe) → is_ready p ≡ false → ¬ Finds p
waiting-lem (failed e) h found = cc
waiting-lem (connected b) h found = cc

-- No try from `t` on and before `u` finds the table.
abbrev pub IsQuiet : (ℕ → Probe) → ℕ → ℕ → Type 0
IsQuiet probe t u = (j : ℕ) → t ≤ j → j < u → ¬ Finds (probe j)

-- The first try that finds it, between `t` and `u`.
abbrev pub First : (ℕ → Probe) → ℕ → ℕ → ℕ → Type 0
First probe t u i = (t ≤ i) × (i < u) × Finds (probe i) × IsQuiet probe t i

module _ (probe : ℕ → Probe) where
  IsQuiet-suc : (t u : ℕ) → ¬ Finds (probe t) → IsQuiet probe (t + 1) u → IsQuiet probe t u
  IsQuiet-suc t u none_yet later j from below = elim (Bool-cases (t == j)) [
    | inl here ↦ (let e : t ≡ j = ground arith in subst (λ k. ¬ Finds (probe k)) e none_yet)
    | inr after ↦ later j (ground arith) below
  ]

  tries-lem :
      (n t : ℕ)
      → ((i : ℕ) × First probe t (t + n) i × (tries probe n t ≡ (true, i + 1)))
        ⊎ ((tries probe n t ≡ (false, t + n)) × IsQuiet probe t (t + n))
  unfolding tries
  tries-lem zero t = inr (ap (λ k. (false, k)) (omega arith), λ j from below. absurd (omega arith))
  tries-lem (suc n) t = elim (Bool-cases (is_ready (probe t))) [
    | inl ready ↦ inl (
      t,
      (omega arith, omega arith, ready-Finds (probe t) ready, λ j from below. absurd (omega arith)),
      rw ready refl,
    )
    | inr waiting ↦ (elim (tries-lem n (t + 1)) [
      | inl (i, (from, below, ready, quiet), e) ↦ inl (
        i,
        (omega arith, omega arith, ready, IsQuiet-suc t i (waiting-lem (probe t) waiting) quiet),
        rw waiting e,
      )
      | inr (e, quiet) ↦
          (let same : t + 1 + n ≡ t + suc n = omega arith in
            inr (
              rw waiting (e ∙ ap (λ k. (false, k)) same),
              IsQuiet-suc t (t + suc n) (waiting-lem (probe t) waiting)
                  (subst (IsQuiet probe (t + 1)) same quiet),
            ))
    ])
  ]

  -- The tries that the installed drivers allow.
  abbrev pub allowed : Bool → ℕ
  allowed installed = if installed then 60 else 0

  -- What a check that begins at try `t` shows, when its tries end before `u`.
  abbrev Checked : ℕ → ℕ → Bool × ℕ → Type 0
  Checked t u out =
      ((i : ℕ) × First probe t u i × (out ≡ (true, i + 1)))
      ⊎ ((out ≡ (false, u)) × IsQuiet probe t u)

  check-lem :
      (installed : Bool) (t : ℕ)
      → Checked t (t + allowed installed) (if installed then tries probe 60 t else (false, t))
  check-lem true t = tries-lem 60 t
  check-lem false t = inr (ap (λ k. (false, k)) (omega arith), λ j from below. absurd (omega arith))

  check-first :
      (installed : Bool) → Checked 0 (allowed installed) (check_with_psycopg2 installed probe 0)
  unfolding check_with_psycopg2
  check-first installed =
      let same : 0 + allowed installed ≡ allowed installed = omega arith in
      subst (λ u. Checked 0 u (check_with_psycopg2 installed probe 0)) same (check-lem installed 0)

  check-next :
      (installed : Bool) (t : ℕ)
      → Checked t (t + allowed installed) (check_with_asyncpg installed probe t)
  unfolding check_with_asyncpg
  check-next installed t = check-lem installed t

  IsQuiet-join : (t u v : ℕ) → IsQuiet probe t u → IsQuiet probe u v → IsQuiet probe t v
  IsQuiet-join t u v before after j from below = elim (Bool-cases (ltb j u)) [
    | inl early ↦ before j from (ground arith)
    | inr late ↦ after j (ground arith) below
  ]

  -- The script makes at most 60 tries for each of the two drivers that is installed. It exits with
  -- code 0 right after the first of them that finds the table `rules`, and with code 1 after all
  -- of them when none does.
  pub wait_exact :
      (psycopg2 asyncpg : Bool)
      → let limit = allowed psycopg2 + allowed asyncpg in
        ((i : ℕ) × First probe 0 limit i × (wait_for_db psycopg2 asyncpg probe ≡ (0, i + 1)))
        ⊎ ((wait_for_db psycopg2 asyncpg probe ≡ (1, limit)) × IsQuiet probe 0 limit)
  unfolding wait_for_db
  wait_exact psycopg2 asyncpg = elim (check-first psycopg2) [
    | inl (i, (from, below, ready, quiet), e) ↦
        inl (i, (from, omega arith, ready, quiet), rw e refl)
    | inr (e, quiet) ↦ (elim (check-next asyncpg (allowed psycopg2)) [
      | inl (i, (from, below, ready, quiet'), e') ↦ inl (
        i,
        (omega arith, below, ready, IsQuiet-join 0 (allowed psycopg2) i quiet quiet'),
        rw (e, e') refl,
      )
      | inr (e', quiet') ↦ inr (
        rw (e, e') refl,
        IsQuiet-join 0 (allowed psycopg2) (allowed psycopg2 + allowed asyncpg) quiet quiet',
      )
    ])
  ]
