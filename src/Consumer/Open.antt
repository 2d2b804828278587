-- ===== src/Consumer/Open.antt =====
-- One repair at a time for a condition (scripts/outbox-consumer.mjs).
use mathlib.Core.Bool.{false≢true}
use mathlib.Core.Option.{none-ne-some, some-injective}
use finalbuilds.Prelude.{
  suc, ◌+◌, ◌++◌, String, true, false, List, [], ◌∷◌, Option, none, some, ◌≡◌, refl, sym, ◌∙◌, ap,
  inl, inr, length, length-append, arith, ◌==◌, Bool-cases, Option-cases, eq-cases, subst,
}
use finalbuilds.Prelude.Text.{includes}
use finalbuilds.Prelude.Dict.{Dict, lookup, insert, lookup-insert, lookup-insert_ne}
use finalbuilds.Prelude.Exec.{Outcome, ok, err, Preserves-for_each, for_each}
use finalbuilds.Model.Value.{Value}
use finalbuilds.Consumer.Brief.{Env, latest_observations, requirements_of, repair_key, brief_of}
use finalbuilds.Consumer.Loop.{
  Desk, Repair, report, site_of, version_of, is_open, opened, consume, dispatch_repair, repair,
  answered, on_task, task_of, is_mirror, look_up, take_up, handle, closing, load, save, main,
}

module _ {V : Type 0} where
  length-insert_new :
      (k : String) (v : V) (d : Dict V) → lookup k d ≡ none → length (insert k v d) ≡ suc (length d)
  length-insert_new k v [] h = refl
  length-insert_new k v ((j, w) ∷ d) h = ground (arith, length-insert_new k v d)

-- Every repair on file is open.
abbrev pub AllOpen : Dict Repair → Type 0
AllOpen repairs = (k : String) (r : Repair) → lookup k repairs ≡ some r → r.still_open ≡ true

-- From `s` on, repairs are kept, and each observation goes with a repair that is new.
record Kept (s t : Desk) : Type 0 where
  stays : (k : String) (r : Repair) → lookup k s.repairs ≡ some r → lookup k t.repairs ≡ some r
  matches : length t.posted + length s.repairs ≡ length s.posted + length t.repairs
  all_open : AllOpen t.repairs

closed_is_new :
    (key : String) (repairs : Dict Repair)
    → AllOpen repairs
    → is_open key repairs ≡ false
    → lookup key repairs ≡ none
closed_is_new key repairs every closed = elim (Option-cases (lookup key repairs)) [
  | inl e ↦ e
  | inr (r, e) ↦ absurd (false≢true (sym closed ∙ rw (is_open, e) (every key r e)))
]

-- The repair that is filed is open.
insert-AllOpen :
    (key : String) (r : Repair) (repairs : Dict Repair)
    → r.still_open ≡ true
    → AllOpen repairs
    → AllOpen (insert key r repairs)
insert-AllOpen key r repairs is_so every j q h = elim (eq-cases key j) [
  | inl (same, test) ↦
      ap (λ p. p.still_open)
        (some-injective q r (sym h ∙ lookup-insert key j r repairs ∙ rw test refl))
      ∙ is_so
  | inr (differ, test) ↦ every j q (sym (lookup-insert_ne key j r repairs differ) ∙ h)
]

insert_keeps :
    (key j : String) (r q : Repair) (repairs : Dict Repair)
    → lookup key repairs ≡ none
    → lookup j repairs ≡ some q
    → lookup j (insert key r repairs) ≡ some q
insert_keeps key j r q repairs new h =
    lookup-insert_ne key j r repairs
      (λ same. none-ne-some q (sym new ∙ ap (λ k. lookup k repairs) same ∙ h))
    ∙ h

module _ (env : Env) (s : Desk) (id : String) where
  same-Kept : (t u : Desk) → t.repairs ≡ u.repairs → t.posted ≡ u.posted → Kept s t → Kept s u
  same-Kept t u same_repairs same_posted k = record {
    stays = λ j r h. subst (λ d. lookup j d ≡ some r) same_repairs (k.stays j r h);
    matches = rw (sym same_repairs, sym same_posted) k.matches;
    all_open = subst AllOpen same_repairs k.all_open;
  }

  opened-Kept :
      (site : Value) (key by_whom : String) (t : Desk)
      → is_open key t.repairs ≡ false
      → Kept s t
      → Kept s (opened env id site key by_whom t)
  unfolding opened consume
  opened-Kept site key by_whom t closed k =
      let new = closed_is_new key t.repairs k.all_open closed in
      let filed : Repair = record { task_id = id; opened_at = env.now; still_open = true } in
      record {
        stays = λ j r h. insert_keeps key j filed r t.repairs new (k.stays j r h);
        matches =
            let longer = length-insert_new key filed t.repairs new in
            let more = length-append t.posted (report env id site by_whom ∷ []) in
            omega (arith, longer, more, k.matches);
        all_open = insert-AllOpen key filed t.repairs refl k.all_open;
      }

  dispatch_repair-Kept :
      (site : Value) (key brief : String) (t : Desk)
      → is_open key t.repairs ≡ false
      → Kept s t
      → Kept s (dispatch_repair env id site key brief t)
  unfolding dispatch_repair
  dispatch_repair-Kept site key brief t closed k =
      let written = record t { briefs = insert id brief t.briefs } in
      let started = record written { handed = t.handed ++ id ∷ [] } in
      elim (Bool-cases (env.repair_cmd == "")) [
        | inl e ↦
            rw e
              (opened-Kept site key "brief-only" written closed (same-Kept t written refl refl k))
        | inr e ↦ elim (Bool-cases (env.accepts t.handed)) [
          | inl y ↦
              rw (e, y)
                (opened-Kept site key env.repair_cmd started closed
                  (same-Kept t started refl refl k))
          | inr n ↦ rw (e, n) (same-Kept t started refl refl k)
        ]
      ]

  repair-Kept :
      (task : Value) (reqs : List Value) (obs : Dict String) (t : Desk)
      → Kept s t
      → Kept s (repair env id task reqs obs t)
  unfolding repair consume
  repair-Kept task reqs obs t k =
      let key = repair_key env (site_of task) (version_of task) reqs in
      let brief = brief_of task (site_of task) (version_of task) reqs obs in
      elim (Bool-cases (is_open key t.repairs)) [
        | inl e ↦ rw e (same-Kept t (consume id t) refl refl k)
        | inr e ↦ rw e (dispatch_repair-Kept (site_of task) key brief t e k)
      ]

  answered-Kept :
      (task : Value) (obs : Outcome String (Dict String)) (reqs : Outcome String (List Value))
      (t : Desk)
      → Kept s t
      → Kept s (answered env id task obs reqs t).1
  unfolding answered
  answered-Kept task (err e) reqs t k = k
  answered-Kept task (ok obs) (err e) t k = k
  answered-Kept task (ok obs) (ok reqs) t k = repair-Kept task reqs obs t k

  take_up-Kept : (task : Value) (t : Desk) → Kept s t → Kept s (take_up env id task t).1
  unfolding take_up look_up consume
  take_up-Kept task t k = elim (Bool-cases (includes t.consumed id)) [
    | inl e ↦ rw e k
    | inr e ↦ elim (Bool-cases (is_mirror task)) [
      | inl m ↦ rw (e, m) (same-Kept t _ refl refl k)
      | inr m ↦
          rw (e, m)
            (answered-Kept task (latest_observations env (site_of task))
              (requirements_of env (version_of task)) t k)
    ]
  ]

on_task-Kept :
    (env : Env) (s : Desk) (o : Option (String × Value)) (t : Desk)
    → Kept s t
    → Kept s (on_task env o t).1
unfolding on_task
on_task-Kept env s none t k = k
on_task-Kept env s (some (id, task)) t k = take_up-Kept env s id task t k

loop-Kept :
    (env : Env) (lines : List String) (s : Desk)
    → AllOpen s.repairs
    → Kept s (for_each (handle env) lines (load s)).1
unfolding load handle
loop-Kept env lines s every =
    (Preserves-for_each (handle env) lines
        (λ line. record { keep = λ t. on_task-Kept env s (task_of env.parse line) t })).keep
      (load s) (record { stays = λ k r h. h; matches = omega arith; all_open = every })

-- Over repairs that are all open, a run, also one that throws, leaves every repair as it is, files
-- open repairs only, and posts as many observations as it files repairs.
pub opened_once :
    (env : Env) (lines : List String) (s : Desk)
    → AllOpen s.repairs
    → ((key : String) (r : Repair)
        → lookup key s.repairs ≡ some r
        → lookup key (main env lines s).1.repairs ≡ some r)
      × AllOpen (main env lines s).1.repairs
      × (length (main env lines s).1.posted + length s.repairs
          ≡ length s.posted + length (main env lines s).1.repairs)
unfolding main save
opened_once env lines s every =
    go (for_each (handle env) lines (load s)) (loop-Kept env lines s every)
  where
    go :
        (q : Outcome String (Unit {0}) × Desk)
        → Kept s q.1
        → ((key : String) (r : Repair)
            → lookup key s.repairs ≡ some r
            → lookup key (closing q).1.repairs ≡ some r)
          × AllOpen (closing q).1.repairs
          × (length (closing q).1.posted + length s.repairs
              ≡ length s.posted + length (closing q).1.repairs)
    go (ok a, t) k = (k.stays, k.all_open, k.matches)
    go (err e, t) k = (k.stays, k.all_open, k.matches)
