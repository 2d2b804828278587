-- ===== src/Hydra/Executor.antt =====
-- `HydraExecutor` (src/graph/hydradb/executor.js): statements with a fallback. The answers of the
-- database and the local store come from outside.
use finalbuilds.Prelude.{
  ℕ, suc, String, Bool, true, false, not, ◌&&◌, List, [], ◌∷◌, eqb, if◌then◌else◌,
}
use finalbuilds.Prelude.Exec.{Outcome, ok, err}
use finalbuilds.Model.Value.{Value}

-- `stats`
pub record Stats : Type 0 where
  pub attempted : ℕ
  pub hydra_ok : ℕ
  pub hydra_fail : ℕ
  pub fallback : ℕ

abbrev pub no_stats : Stats
no_stats = record { attempted = 0; hydra_ok = 0; hydra_fail = 0; fallback = 0 }

-- A row of `results` with its statement: what the database answered; what it failed with, where the
-- local store took the statement; the error of the local store; the error of the database, strictly
-- or not.
pub data Result : Type 0 where
  hydra : String → Value → Result
  local : String → String → Result
  none_took : String → String → Result
  strict_error : String → String → Result
  hydra_error : String → String → Result

-- `success`
abbrev pub success : Result → Bool
success (hydra statement v) = true
success (local statement e) = true
success r = false

-- `backend === 'local'`
abbrev pub is_local : Result → Bool
is_local (local statement e) = true
is_local r = false

abbrev pub count : (Result → Bool) → List Result → ℕ
count p [] = 0
count p (r ∷ rs) = if p r then suc (count p rs) else count p rs

-- The database answers the n-th attempt of all; `has_local` says that a local store is given.
pub record Database (L : Type 0) : Type 0 where
  pub query : ℕ → String → Outcome String Value
  pub allow_fallback : Bool
  pub has_local : Bool
  pub apply : String → L → Outcome String (Unit {0}) × L

pub record Executor (L : Type 0) : Type 0 where
  pub stats : Stats
  pub store : L

module _ {L : Type 0} (db : Database L) where
  abbrev pub applied : String → String → Stats → Outcome String (Unit {0}) × L → Result × Executor L
  applied statement error st (ok a, l) = (
    local statement error,
    record { stats = record st { fallback = suc st.fallback }; store = l },
  )
  applied statement error st (err e, l) = (none_took statement e, record { stats = st; store = l })

  abbrev pub answered : String → Stats → L → Outcome String Value → Result × Executor L
  answered statement st l (ok v) =
      (hydra statement v, record { stats = record st { hydra_ok = suc st.hydra_ok }; store = l })
  answered statement st l (err e) =
      let failed = record st { hydra_fail = suc st.hydra_fail } in
      if db.allow_fallback && db.has_local
      then applied statement e failed (db.apply statement l)
      else (if not db.allow_fallback
          then (strict_error statement e, record { stats = failed; store = l })
          else (hydra_error statement e, record { stats = failed; store = l }))

  -- The body of the loop of `executeAll`.
  unfoldable pub execute : String → Executor L → Result × Executor L
  execute statement x =
      answered statement (record x.stats { attempted = suc x.stats.attempted }) x.store
        (db.query (suc x.stats.attempted) statement)

  -- `executeAll(statements)`
  unfoldable pub execute_all : List String → Executor L → List Result × Executor L
  unfolding execute
  execute_all [] x = ([], x)
  execute_all (s ∷ statements) x =
      let (r, y) = execute s x in let (rs, z) = execute_all statements y in (r ∷ rs, z)

  -- `isReachable()`
  unfoldable pub is_reachable : ℕ → Bool
  is_reachable n = elim (db.query n "MATCH (n:BuildRun) RETURN n.string_id LIMIT 0") [
    | ok _ ↦ true
    | err _ ↦ false
  ]

-- `fallback_zero` of `getStats()`, beside the numbers.
abbrev pub fallback_zero : Stats → Bool
fallback_zero st = eqb st.fallback 0
