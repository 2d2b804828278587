-- ===== src/Hydra/Accounts.antt =====
-- What the numbers of `HydraExecutor` say of its results (src/graph/hydradb/executor.js).
use finalbuilds.Prelude.{
  suc, ◌+◌, ◌≤◌, String, false, ◌&&◌, List, [], ◌∷◌, ◌≡◌, refl, length, arith, inl, inr, Bool-cases,
}
use finalbuilds.Prelude.Exec.{Outcome, ok, err}
use finalbuilds.Model.Value.{Value}
use finalbuilds.Hydra.Executor.{
  Stats, Result, hydra_error, strict_error, success, is_local, count, Database, Executor, applied,
  answered, execute, execute_all,
}

-- From the stats `a`, results `rs` later, the stats are `b`.
pub record Accounted (a b : Stats) (rs : List Result) : Type 0 where
  pub each_attempted : b.attempted ≡ a.attempted + length rs
  pub ok_or_failed :
      b.attempted + (a.hydra_ok + a.hydra_fail) ≡ a.attempted + (b.hydra_ok + b.hydra_fail)
  pub locals : b.fallback ≡ a.fallback + count is_local rs
  pub successes : b.hydra_ok + b.fallback ≡ a.hydra_ok + a.fallback + count success rs
  pub failed_first : b.fallback + a.hydra_fail ≤ a.fallback + b.hydra_fail

none-Accounted : (a : Stats) → Accounted a a []
none-Accounted a = record {
  each_attempted = omega arith;
  ok_or_failed = omega arith;
  locals = omega arith;
  successes = omega arith;
  failed_first = omega arith;
}

then-Accounted :
    (a b c : Stats) (r : Result) (rs : List Result)
    → Accounted a b (r ∷ [])
    → Accounted b c rs
    → Accounted a c (r ∷ rs)
then-Accounted a b c r rs h k = record {
  each_attempted = omega (arith, h.each_attempted, k.each_attempted);
  ok_or_failed = omega (arith, h.ok_or_failed, k.ok_or_failed);
  locals = ground (arith, h.locals, k.locals);
  successes = ground (arith, h.successes, k.successes);
  failed_first = omega (arith, h.failed_first, k.failed_first);
}

module _ {L : Type 0} (db : Database L) where
  applied-Accounted :
      (s e : String) (a : Stats) (q : Outcome String (Unit {0}) × L)
      → Accounted a
          (applied db s e
            (record a { attempted = suc a.attempted; hydra_fail = suc a.hydra_fail })
            q).1.stats
          ((applied db s e
              (record a { attempted = suc a.attempted; hydra_fail = suc a.hydra_fail })
              q).0
            ∷ [])
  applied-Accounted s e a (ok u, l) = record {
    each_attempted = omega arith;
    ok_or_failed = omega arith;
    locals = omega arith;
    successes = omega arith;
    failed_first = omega arith;
  }
  applied-Accounted s e a (err x, l) = record {
    each_attempted = omega arith;
    ok_or_failed = omega arith;
    locals = omega arith;
    successes = omega arith;
    failed_first = omega arith;
  }

  failed-Accounted :
      (a : Stats) (r : Result)
      → success r ≡ false
      → is_local r ≡ false
      → Accounted a
          (record a { attempted = suc a.attempted; hydra_fail = suc a.hydra_fail })
          (r ∷ [])
  failed-Accounted a r fails no_local = record {
    each_attempted = omega arith;
    ok_or_failed = omega arith;
    locals = ground (arith, no_local);
    successes = ground (arith, fails);
    failed_first = omega arith;
  }

  answered-Accounted :
      (s : String) (a : Stats) (l : L) (q : Outcome String Value)
      → Accounted a
          (answered db s (record a { attempted = suc a.attempted }) l q).1.stats
          ((answered db s (record a { attempted = suc a.attempted }) l q).0 ∷ [])
  answered-Accounted s a l (ok v) = record {
    each_attempted = omega arith;
    ok_or_failed = omega arith;
    locals = omega arith;
    successes = omega arith;
    failed_first = omega arith;
  }
  answered-Accounted s a l (err e) = elim (Bool-cases (db.allow_fallback && db.has_local)) [
    | inl y ↦ rw y (applied-Accounted s e a (db.apply s l))
    | inr n ↦ elim (Bool-cases db.allow_fallback) [
      | inl y ↦ rw (n, y) (failed-Accounted a (hydra_error s e) refl refl)
      | inr f ↦ rw (n, f) (failed-Accounted a (strict_error s e) refl refl)
    ]
  ]

  -- A run of statements gives a result each; the numbers add up to the attempts, a fallback is
  -- counted for exactly the results of the local store, the successes are those of the database and
  -- those of the fallback, and there is no fallback without a failure.
  pub execute_all-Accounted :
      (statements : List String) (x : Executor L)
      → (length (execute_all db statements x).0 ≡ length statements)
        × Accounted x.stats (execute_all db statements x).1.stats (execute_all db statements x).0
  unfolding execute_all execute
  execute_all-Accounted [] x = (refl, none-Accounted x.stats)
  execute_all-Accounted (s ∷ statements) x =
      let (r, y) = execute db s x in
      let (same, rest) = execute_all-Accounted statements y in
      (
        omega (arith, same),
        then-Accounted x.stats y.stats _ r _
            (answered-Accounted s x.stats x.store (db.query (suc x.stats.attempted) s)) rest,
      )
