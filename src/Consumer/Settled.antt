-- ===== src/Consumer/Settled.antt =====
-- What a run of the outbox consumer leaves consumed (scripts/outbox-consumer.mjs).
use mathlib.Core.Bool.{false≢true}
use finalbuilds.Prelude.{
  ◌≤◌, String, true, List, [], ◌∷◌, Option, none, some, ◌≡◌, refl, sym, ◌∙◌, ap, subst, inl, inr,
  length, All,
}
use finalbuilds.Prelude.Text.{Distinct}
use finalbuilds.Prelude.Exec.{Outcome, ok, err, bind_cases, bind_ok, for_each, ◌>>◌}
use finalbuilds.Model.Value.{Value}
use finalbuilds.Consumer.Brief.{Env}
use finalbuilds.Consumer.Loop.{
  Desk, on_task, task_of, take_up, handle, closing, load, save, main, set_of, last_ids,
}
use finalbuilds.Consumer.Ids.{set_of-Distinct, set_of-append, last_ids_short}
use finalbuilds.Consumer.Growth.{
  is_settled, Accepting, Grown, on_task-Grown, on_task_settles, settled_stays, lines-Grown,
}

-- Every line is settled by the ids.
abbrev pub Settled : (String → Option Value) → List String → List String → Type 0
Settled parse ids = All (λ line. is_settled ids (task_of parse line) ≡ true)

handle-Distinct :
    (env : Env) (line : String) (s t : Desk)
    → Distinct s.consumed
    → handle env line s ≡ (ok tt, t)
    → Distinct t.consumed
unfolding handle
handle-Distinct env line s t d e =
    subst (λ u. Distinct u.consumed) (ap (λ q. q.1) e)
      ((on_task-Grown s.consumed env (task_of env.parse line) s
        (record { distinct = d; keeps = λ x h. h })).distinct)

handle_settles :
    (env : Env) (line : String) (s t : Desk)
    → Accepting env
    → handle env line s ≡ (ok tt, t)
    → is_settled t.consumed (task_of env.parse line) ≡ true
unfolding handle
handle_settles env line s t a e =
    subst (λ u. is_settled u.consumed (task_of env.parse line) ≡ true) (ap (λ q. q.1) e)
      (on_task_settles env (task_of env.parse line) s a (ap (λ q. q.0) e))

lines_settle :
    (env : Env) (lines : List String) (s t : Desk)
    → Accepting env
    → Distinct s.consumed
    → for_each (handle env) lines s ≡ (ok tt, t)
    → Settled env.parse t.consumed lines
unfolding for_each ◌>>◌
lines_settle env [] s t a d run = tt
lines_settle env (line ∷ lines) s t a d run =
    elim (bind_cases (handle env line) (λ _. for_each (handle env) lines) s (ok tt) t run) [
      | inr (x, e, no_end) ↦ cc
      | inl (u, m, e, rest) ↦ (
        settled_stays m.consumed t (task_of env.parse line)
            (subst (Grown m.consumed) (ap (λ q. q.1) rest) (
              lines-Grown m.consumed env lines m
                (record { distinct = handle-Distinct env line s m d e; keeps = λ x h. h })))
            (handle_settles env line s m a e),
        lines_settle env lines m t a (handle-Distinct env line s m d e) rest,
      )
    ]

on_task_rests :
    (env : Env) (o : Option (String × Value)) (s : Desk)
    → is_settled s.consumed o ≡ true
    → on_task env o s ≡ (ok tt, s)
unfolding on_task take_up
on_task_rests env none s h = refl
on_task_rests env (some (id, task)) s h = rw h refl

lines_rest :
    (env : Env) (lines : List String) (s : Desk)
    → Settled env.parse s.consumed lines
    → for_each (handle env) lines s ≡ (ok tt, s)
unfolding for_each ◌>>◌ handle
lines_rest env [] s h = refl
lines_rest env (line ∷ lines) s h =
    bind_ok (handle env line) (λ _. for_each (handle env) lines) s tt s
      (on_task_rests env (task_of env.parse line) s h.0)
    ∙ lines_rest env lines s h.1

-- What a run without a throw leaves, by its loop.
record Finished (env : Env) (lines : List String) (s t : Desk) : Type 0 where
  ended : Desk
  ran : for_each (handle env) lines (load s) ≡ (ok tt, ended)
  left : t ≡ save ended
  distinct : Distinct ended.consumed

load-Distinct : (s : Desk) → Distinct (load s).consumed
unfolding load
load-Distinct s = go s.saved
  where
    go : (o : Option (List String)) → Distinct (elim o [ none ↦ [] | some ids ↦ set_of ids [] ])
    go none = tt
    go (some ids) = set_of-Distinct ids [] tt

main-Finished :
    (env : Env) (lines : List String) (s t : Desk)
    → main env lines s ≡ (ok tt, t)
    → Finished env lines s t
unfolding main
main-Finished env lines s t e = go (for_each (handle env) lines (load s)) refl e
  where
    go :
        (q : Outcome String (Unit {0}) × Desk)
        → for_each (handle env) lines (load s) ≡ q
        → closing q ≡ (ok tt, t)
        → Finished env lines s t
    go (ok a, u) ran e = record {
      ended = u;
      ran = ran;
      left = sym (ap (λ q. q.1) e);
      distinct =
          subst (λ q. Distinct q.1.consumed) ran
            ((lines-Grown [] env lines (load s) (record {
              distinct = load-Distinct s;
              keeps = λ x h. absurd (false≢true h);
            })).distinct);
    }
    go (err x, u) ran e = cc

-- After a run that does not throw, under a command that accepts what it is given, or without one, every
-- line of the outbox that has a task has its id consumed.
pub run_consumes :
    (env : Env) (lines : List String) (s t : Desk)
    → Accepting env
    → main env lines s ≡ (ok tt, t)
    → Settled env.parse t.consumed lines
unfolding save
run_consumes env lines s t a e =
    let f = main-Finished env lines s t e in
    subst (λ u. Settled env.parse u.consumed lines) (sym f.left)
      (lines_settle env lines (load s) f.ended a (load-Distinct s) f.ran)

-- What such a run saves is read back.
saved_whole :
    {env : Env} {lines : List String} {s t : Desk}
    → Finished env lines s t
    → length t.consumed ≤ 500
    → t.saved ≡ some t.consumed
unfolding save
saved_whole {t = t} f short =
    ap (λ u. u.saved) f.left
    ∙ ap (λ u. some (last_ids u.consumed)) (sym f.left)
    ∙ ap some (last_ids_short t.consumed short)

load_back :
    (t : Desk) → Distinct t.consumed → t.saved ≡ some t.consumed → load t ≡ record t { acted = 0 }
unfolding load
load_back t d saved =
    ap (λ o. record t { consumed = elim o [ none ↦ [] | some ids ↦ set_of ids [] ]; acted = 0 })
      saved
    ∙ ap (λ ids. record t { consumed = ids; acted = 0 }) (set_of-append t.consumed [] d)

-- A second run over the same outbox, after one that did not throw, consumed at most 500 ids and
-- met a command that accepts, or none, does nothing, whatever the graph and the command then say.
pub run_again :
    (env later : Env) (lines : List String) (s t : Desk)
    → Accepting env
    → main env lines s ≡ (ok tt, t)
    → length t.consumed ≤ 500
    → later.parse ≡ env.parse
    → main later lines t ≡ (ok tt, record t { acted = 0 })
unfolding main save
run_again env later lines s t a e short same =
    let f = main-Finished env lines s t e in
    let saved = saved_whole f short in
    let idle : Desk = record t { acted = 0 } in
    let settled = run_consumes env lines s t a e in
    let d = subst (λ u. Distinct u.consumed) (sym f.left) f.distinct in
    ap (λ u. closing (for_each (handle later) lines u)) (load_back t d saved)
    ∙ ap closing
        (lines_rest later lines idle (subst (λ p. Settled p t.consumed lines) (sym same) settled))
    ∙ ap (λ ids. (ok tt, record idle { saved = some ids })) (last_ids_short t.consumed short)
    ∙ ap (λ o. (ok tt, record idle { saved = o })) (sym saved)
