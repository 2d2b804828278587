-- ===== src/Consumer/Growth.antt =====
-- The ids that the body of the outbox consumer's loop consumes (scripts/outbox-consumer.mjs).
use finalbuilds.Prelude.{
  ◌++◌, String, Bool, true, false, List, [], ◌∷◌, Option, none, some, ◌≡◌, refl, sym, ◌∙◌, ap,
  subst, eq_refl, ◌⊎◌, inl, inr, ◌==◌, Bool-cases,
}
use finalbuilds.Prelude.Text.{includes, Distinct, Distinct-append}
use finalbuilds.Prelude.Dict.{Dict}
use finalbuilds.Prelude.Exec.{Outcome, ok, err, Preserves-for_each, for_each}
use finalbuilds.Model.Value.{Value}
use finalbuilds.Consumer.Brief.{Env, latest_observations, requirements_of, repair_key, brief_of}
use finalbuilds.Consumer.Loop.{
  Desk, is_open, site_of, version_of, opened, consume, dispatch_repair, repair, answered, on_task,
  task_of, is_mirror, look_up, take_up, handle,
}
use finalbuilds.Consumer.Ids.{
  includes-append_self, includes-append_left, add_self, add_keeps, add-Distinct,
}

-- A line without a task, or with one that is consumed, needs nothing more.
abbrev pub is_settled : List String → Option (String × Value) → Bool
is_settled ids none = true
is_settled ids (some (id, task)) = includes ids id

-- The command, if there is one, ends with 0 whenever it is started.
abbrev pub Accepting : Env → Type 0
Accepting env = (env.repair_cmd ≡ "") ⊎ ((past : List String) → env.accepts past ≡ true)

-- Distinct ids, of which `x` is one if it was in `past`.
pub record Grown (past : List String) (s : Desk) : Type 0 where
  pub distinct : Distinct s.consumed
  pub keeps : (x : String) → includes past x ≡ true → includes s.consumed x ≡ true

module _ (past : List String) (env : Env) (id : String) where
  consume-Grown : (s : Desk) → Grown past s → Grown past (consume id s)
  unfolding consume
  consume-Grown s g = record {
    distinct = add-Distinct id s.consumed g.distinct;
    keeps = λ x h. add_keeps x id s.consumed (g.keeps x h);
  }

  new-Grown :
      (s : Desk)
      → includes s.consumed id ≡ false
      → Grown past s
      → Grown past (record s { consumed = s.consumed ++ id ∷ [] })
  new-Grown s new g = record {
    distinct = Distinct-append id s.consumed g.distinct new;
    keeps = λ x h. includes-append_left x id s.consumed (g.keeps x h);
  }

  same-Grown : (s t : Desk) → s.consumed ≡ t.consumed → Grown past s → Grown past t
  same-Grown s t e g = record {
    distinct = subst Distinct e g.distinct;
    keeps = λ x h. ap (λ ids. includes ids x) (sym e) ∙ g.keeps x h;
  }

  dispatch_repair-Grown :
      (site : Value) (key brief : String) (s : Desk)
      → Grown past s
      → Grown past (dispatch_repair env id site key brief s)
  unfolding dispatch_repair opened
  dispatch_repair-Grown site key brief s g = elim (Bool-cases (env.repair_cmd == "")) [
    | inl e ↦ rw e (consume-Grown _ (same-Grown s _ refl g))
    | inr e ↦ elim (Bool-cases (env.accepts s.handed)) [
      | inl y ↦ rw (e, y) (consume-Grown _ (same-Grown s _ refl g))
      | inr n ↦ rw (e, n) (same-Grown s _ refl g)
    ]
  ]

  repair-Grown :
      (task : Value) (reqs : List Value) (obs : Dict String) (s : Desk)
      → Grown past s
      → Grown past (repair env id task reqs obs s)
  unfolding repair
  repair-Grown task reqs obs s g =
      let key = repair_key env (site_of task) (version_of task) reqs in
      let brief = brief_of task (site_of task) (version_of task) reqs obs in
      elim (Bool-cases (is_open key s.repairs)) [
        | inl e ↦ rw e (consume-Grown s g)
        | inr e ↦ rw e (dispatch_repair-Grown (site_of task) key brief s g)
      ]

  answered-Grown :
      (task : Value) (obs : Outcome String (Dict String)) (reqs : Outcome String (List Value))
      (s : Desk)
      → Grown past s
      → Grown past (answered env id task obs reqs s).1
  unfolding answered
  answered-Grown task (err e) reqs s g = g
  answered-Grown task (ok obs) (err e) s g = g
  answered-Grown task (ok obs) (ok reqs) s g = repair-Grown task reqs obs s g

  take_up-Grown : (task : Value) (s : Desk) → Grown past s → Grown past (take_up env id task s).1
  unfolding take_up look_up
  take_up-Grown task s g = elim (Bool-cases (includes s.consumed id)) [
    | inl e ↦ rw e g
    | inr e ↦ elim (Bool-cases (is_mirror task)) [
      | inl m ↦ rw (e, m) (new-Grown s e g)
      | inr m ↦
          rw (e, m)
            (answered-Grown task (latest_observations env (site_of task))
              (requirements_of env (version_of task)) s g)
    ]
  ]

  -- With an accepting command, a task that is dispatched is consumed.
  dispatch_repair_consumes :
      (site : Value) (key brief : String) (s : Desk)
      → Accepting env
      → includes (dispatch_repair env id site key brief s).consumed id ≡ true
  unfolding dispatch_repair opened consume
  dispatch_repair_consumes site key brief s (inl none_given) =
      rw (none_given, eq_refl "") (add_self id s.consumed)
  dispatch_repair_consumes site key brief s (inr accepts) =
      elim (Bool-cases (env.repair_cmd == "")) [
        | inl e ↦ rw e (add_self id s.consumed)
        | inr e ↦ rw (e, accepts s.handed) (add_self id s.consumed)
      ]

  repair_consumes :
      (task : Value) (reqs : List Value) (obs : Dict String) (s : Desk)
      → Accepting env
      → includes (repair env id task reqs obs s).consumed id ≡ true
  unfolding repair consume
  repair_consumes task reqs obs s a =
      let key = repair_key env (site_of task) (version_of task) reqs in
      let brief = brief_of task (site_of task) (version_of task) reqs obs in
      elim (Bool-cases (is_open key s.repairs)) [
        | inl e ↦ rw e (add_self id s.consumed)
        | inr e ↦ rw e (dispatch_repair_consumes (site_of task) key brief s a)
      ]

  answered_consumes :
      (task : Value) (obs : Outcome String (Dict String)) (reqs : Outcome String (List Value))
      (s : Desk)
      → Accepting env
      → (answered env id task obs reqs s).0 ≡ ok tt
      → includes (answered env id task obs reqs s).1.consumed id ≡ true
  unfolding answered
  answered_consumes task (err e) reqs s a done = cc
  answered_consumes task (ok obs) (err e) s a done = cc
  answered_consumes task (ok obs) (ok reqs) s a done = repair_consumes task reqs obs s a

  take_up_consumes :
      (task : Value) (s : Desk)
      → Accepting env
      → (take_up env id task s).0 ≡ ok tt
      → includes (take_up env id task s).1.consumed id ≡ true
  unfolding take_up look_up consume
  take_up_consumes task s a = elim (Bool-cases (includes s.consumed id)) [
    | inl e ↦ rw (take_up, e) (λ done. e)
    | inr e ↦ elim (Bool-cases (is_mirror task)) [
      | inl m ↦ rw (take_up, e, m) (λ done. includes-append_self id s.consumed)
      | inr m ↦
          rw (take_up, e, m)
            (answered_consumes task (latest_observations env (site_of task))
              (requirements_of env (version_of task)) s a)
    ]
  ]

pub on_task-Grown :
    (past : List String) (env : Env) (o : Option (String × Value)) (s : Desk)
    → Grown past s
    → Grown past (on_task env o s).1
unfolding on_task
on_task-Grown past env none s g = g
on_task-Grown past env (some (id, task)) s g = take_up-Grown past env id task s g

pub on_task_settles :
    (env : Env) (o : Option (String × Value)) (s : Desk)
    → Accepting env
    → (on_task env o s).0 ≡ ok tt
    → is_settled (on_task env o s).1.consumed o ≡ true
unfolding on_task
on_task_settles env none s a done = refl
on_task_settles env (some (id, task)) s a done = take_up_consumes s.consumed env id task s a done

pub settled_stays :
    (past : List String) (s : Desk) (o : Option (String × Value))
    → Grown past s
    → is_settled past o ≡ true
    → is_settled s.consumed o ≡ true
settled_stays past s none g h = refl
settled_stays past s (some (id, task)) g h = g.keeps id h

pub lines-Grown :
    (past : List String) (env : Env) (lines : List String) (s : Desk)
    → Grown past s
    → Grown past (for_each (handle env) lines s).1
unfolding handle
lines-Grown past env lines s =
    (Preserves-for_each (handle env) lines
        (λ line. record { keep = λ t. on_task-Grown past env (task_of env.parse line) t })).keep
      s
