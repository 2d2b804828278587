-- ===== src/Dispatch/Once.antt =====
-- A build is handed to its transport once (src/dispatch/router-dispatcher.js), and its result stays.
use mathlib.Core.Bool.{false≢true}
use finalbuilds.Prelude.{
  String, true, false, ◌≡◌, refl, sym, ap, ◌∙◌, inl, inr, none, some, [], ◌∷◌, ◌++◌, Bool-cases,
  Option-cases,
}
use finalbuilds.Prelude.Text.{includes, Distinct, Distinct-append}
use finalbuilds.Prelude.Dict.{lookup}
use finalbuilds.Prelude.Exec.{Outcome, ok, err}
use finalbuilds.Model.Value.{Value}
use finalbuilds.Dispatch.Router.{
  Task, Setup, Router, Opening, answers, hands_over, passes_on, in_flight, is_routed, begin,
}
use finalbuilds.Dispatch.Machine.{
  Run, arrive_by, arrive, settle, Reached, arrives, settles, at_start, then_step,
}

module _ {S : Type 0} (setup : Setup S) where
  -- What holds of every run: the transport's calls are the ids of `dispatchedBuilds`, each once.
  record Once (w : Run S) : Type 0 where
    recorded : w.started ≡ w.router.dispatched
    distinct : Distinct w.started

  -- How the opening of a call moves the set of dispatched builds.
  pub data Opened (task : Task) (r : Router) : Opening × Router → Type 0 where
    known : (v : Value) → lookup task.id r.results ≡ some v → Opened task r (answers v, r)
    running : includes r.dispatched task.id ≡ true → Opened task r (answers (in_flight task), r)
    opened :
        includes r.dispatched task.id ≡ false
        → lookup task.id r.results ≡ none
        → Opened task r (hands_over, record r { dispatched = r.dispatched ++ task.id ∷ [] })
    passed : is_routed setup task ≡ false → Opened task r (passes_on, r)

  pub begin_opens : (task : Task) (r : Router) → Opened task r (begin setup task r)
  unfolding begin
  begin_opens task r = elim (Bool-cases (is_routed setup task)) [
    | inr other ↦ rw (begin, other) (passed other)
    | inl routed ↦ elim (Option-cases (lookup task.id r.results)) [
      | inr (v, found) ↦ rw (begin, routed, found) (known v found)
      | inl absent ↦ elim (Bool-cases (includes r.dispatched task.id)) [
        | inl old ↦ rw (begin, routed, absent, old) (running old)
        | inr new ↦ rw (begin, routed, absent, new) (opened new absent)
      ]
    ]
  ]

  arrive_by-Once :
      (task : Task) (w : Run S) (p : Opening × Router)
      → Opened task w.router p
      → Once w
      → Once (arrive_by setup task w p)
  arrive_by-Once task w _ (known v found) h = record {
    recorded = h.recorded;
    distinct = h.distinct;
  }
  arrive_by-Once task w _ (running old) h = record { recorded = h.recorded; distinct = h.distinct }
  arrive_by-Once task w _ (passed other) h = record { recorded = h.recorded; distinct = h.distinct }
  arrive_by-Once task w _ (opened new absent) h = record {
    recorded = ap (λ ids. ids ++ task.id ∷ []) h.recorded;
    distinct =
        Distinct-append task.id w.started h.distinct
          (ap (λ ids. includes ids task.id) h.recorded ∙ new);
  }

  settle-Once :
      (task : Task) (outcome : Outcome String Value) (w : Run S)
      → Once w
      → Once (settle setup task outcome w)
  unfolding settle
  settle-Once task (ok v) w h = record { recorded = h.recorded; distinct = h.distinct }
  settle-Once task (err message) w h = record { recorded = h.recorded; distinct = h.distinct }

  Reached-Once : {w : Run S} → Reached setup w → Once w
  unfolding arrive
  Reached-Once (at_start s) = record { recorded = refl; distinct = tt }
  Reached-Once (then_step {w = w} past (arrives task)) =
      arrive_by-Once task w (begin setup task w.router) (begin_opens task w.router)
        (Reached-Once past)
  Reached-Once (then_step {w = w} past (settles task outcome found)) =
      settle-Once task outcome w (Reached-Once past)

  -- Whatever calls arrive and in whatever order the transports settle, with results or with throws,
  -- no task id is handed to the build transport twice.
  pub started_once : (w : Run S) → Reached setup w → Distinct w.started
  started_once w past = (Reached-Once past).distinct

  routed_opens :
      (task : Task) (w : Run S) (p : Opening × Router)
      → Opened task w.router p
      → is_routed setup task ≡ true
      → includes w.router.dispatched task.id ≡ true
      → arrive_by setup task w p ≡ w
  routed_opens task w _ (known v found) routed old = refl
  routed_opens task w _ (running was) routed old = refl
  routed_opens task w _ (opened new absent) routed old = absurd (false≢true (sym new ∙ old))
  routed_opens task w _ (passed other) routed old = absurd (false≢true (sym other ∙ routed))

  -- Once a build has been handed over, a further call for its id changes nothing: it is answered with
  -- the result or as in flight, without a call of the transport or a line in the outbox.
  arrive_again :
      (task : Task) (w : Run S)
      → Reached setup w
      → is_routed setup task ≡ true
      → includes w.started task.id ≡ true
      → arrive setup task w ≡ w
  unfolding arrive
  arrive_again task w past routed old =
      routed_opens task w (begin setup task w.router) (begin_opens task w.router) routed
        (ap (λ ids. includes ids task.id) (sym (Reached-Once past).recorded) ∙ old)
