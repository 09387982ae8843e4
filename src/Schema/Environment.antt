-- ===== src/Schema/Environment.antt =====
-- db/migrations/env.py: the two modes in which Alembic runs the migrations.
use hyperliquid_trading_aler.Prelude.{
  ◌≡◌, String, Option, none, some, Exn, Result, ok, err, List, arith, [], ◌∷◌, All, Bool, true,
  false, if◌then◌else◌, ap, ok-injective, >>=-eq-ok, refl, ◌⊎◌, inl, inr,
}
use hyperliquid_trading_aler.Db.Url.{migration_url}
use hyperliquid_trading_aler.Schema.{Operation, Server, add_value_if_missing}
use hyperliquid_trading_aler.Schema.Migrations.{run_all}

-- What Alembic and the network do. `option` is `get_main_option` after `set_main_option` of a text,
-- which raises ValueError on a percent sign that is no interpolation. `connect` gives the catalogue
-- behind a URL, or the exception of the driver.
pub record Alembic (server : Server) : Type 0 where
  pub option : String → Result String
  pub connect : String → Result server.Catalogue

result_cases : {A : Type 0} (r : Result A) → ((a : A) × (r ≡ ok a)) ⊎ ((e : Exn) × (r ≡ err e))
result_cases (ok a) = inl (a, refl)
result_cases (err e) = inr (e, refl)

err_lem : {A : Type 0} (r : Result A) {x e : Exn} → r ≡ err x → r ≡ err e → x ≡ e
err_lem r h k = cc

module _ (server : Server) (alembic : Alembic server) where
  -- `autocommit_block` of revision 004: it commits what came before and runs outside a transaction.
  abbrev is_autocommit : Operation → Bool
  is_autocommit (add_value_if_missing name label) = true
  is_autocommit _ = false

  -- The operations that are due, from what is committed and what the transaction has made of it: an
  -- operation that raises ends the run, and the catalogue is what was committed last.
  unfoldable pub do_run_migrations :
      List Operation → server.Catalogue → server.Catalogue → Result (Unit {0}) × server.Catalogue
  do_run_migrations [] committed catalogue = (ok tt, catalogue)
  do_run_migrations (op ∷ due) committed catalogue = elim (server.run op catalogue) [
    | err e ↦ (err e, if is_autocommit op then catalogue else committed)
    | ok after ↦ do_run_migrations due (if is_autocommit op then after else committed) after
  ]

  unfoldable pub run_migrations_online :
      Option String → List Operation → Result (Unit {0}) × Option server.Catalogue
  run_migrations_online given due = elim (alembic.option (migration_url given)) [
    | err e ↦ (err e, none)
    | ok url ↦ elim (alembic.connect url) [
      | err e ↦ (err e, none)
      | ok catalogue ↦
          (let (result, after) = do_run_migrations due catalogue catalogue in (result, some after))
    ]
  ]

  -- `run_migrations_offline`: the operations are written out as a script, and nothing connects.
  unfoldable pub run_migrations_offline : Option String → List Operation → Result (List Operation)
  run_migrations_offline given due = elim (alembic.option (migration_url given)) [
    | err e ↦ err e
    | ok url ↦ ok due
  ]

  run-done :
      (due : List Operation) (committed catalogue : server.Catalogue) {after : server.Catalogue}
      → run_all server due catalogue ≡ ok after
      → do_run_migrations due committed catalogue ≡ (ok tt, after)
  unfolding do_run_migrations
  run-done [] committed catalogue h = ap (λ s. (ok tt, s)) (ok-injective h)
  run-done (op ∷ due) committed catalogue h =
      let (next, e, h') = >>=-eq-ok (server.run op catalogue) _ h in
      rw (e, do_run_migrations) (run-done due _ next h')

  run-undone :
      (due : List Operation) (committed catalogue : server.Catalogue) {e : Exn}
      → All (λ op. is_autocommit op ≡ false) due
      → run_all server due catalogue ≡ err e
      → do_run_migrations due committed catalogue ≡ (err e, committed)
  unfolding do_run_migrations
  run-undone [] committed catalogue plain h = absurd (cc)
  run-undone (op ∷ due) committed catalogue plain h =
      elim (result_cases (server.run op catalogue)) [
        | inl (next, e) ↦
            rw (e, plain.0, do_run_migrations) (run-undone due committed next plain.1 (rw e at h))
        | inr (x, e) ↦
            rw (e, plain.0, do_run_migrations)
              (ap (λ y. (err y, committed)) (err_lem (err x) refl (rw e at h)))
      ]

  -- If every operation that is due succeeds, the database that the URL names gets them all. If one
  -- raises, the run raises the same, and the database is as it was, when none of them commits by
  -- itself, which of the revisions only 004 does.
  pub online_atomic :
      (given : Option String) (due : List Operation) {url : String} {catalogue : server.Catalogue}
      → alembic.option (migration_url given) ≡ ok url
      → alembic.connect url ≡ ok catalogue
      → ((after : server.Catalogue)
          → run_all server due catalogue ≡ ok after
          → run_migrations_online given due ≡ (ok tt, some after))
        × ((e : Exn)
            → All (λ op. is_autocommit op ≡ false) due
            → run_all server due catalogue ≡ err e
            → run_migrations_online given due ≡ (err e, some catalogue))
  unfolding run_migrations_online
  online_atomic given due {url} {catalogue} set reached = (
    (λ after h. ground (arith, run-done due catalogue catalogue {after = after} h)),
    (λ e plain h. ground (arith, run-undone due catalogue catalogue {e = e} plain h)),
  )

  -- Where the URL is refused by Alembic's configuration, neither mode does anything, whatever the
  -- database.
  pub refused_url :
      (given : Option String) (due : List Operation) (e : Exn)
      → alembic.option (migration_url given) ≡ err e
      → (run_migrations_online given due ≡ (err e, none))
        × (run_migrations_offline given due ≡ err e)
  unfolding run_migrations_online run_migrations_offline
  refused_url given due e refused = ground arith
