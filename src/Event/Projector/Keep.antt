-- ===== src/Event/Projector/Keep.antt =====
-- Whatever both graph writes keep, `projectEvent` and `rebuildProjection` keep
-- (src/event/projector.js).
use finalbuilds.Prelude.{List, [], ◌∷◌, All, length, Bool-cases, inl, inr, ◌==◌}
use finalbuilds.Prelude.Exec.{Preserves, Preserves-pure, Preserves-then, for_each, ◌>>◌}
use finalbuilds.Graph.InMemory.{Graph, clear, empty}
use finalbuilds.Event.Log.{Event}
use finalbuilds.Event.Projector.{Case, cases, switch, project_event, rebuild_projection}
use finalbuilds.Event.Projector.Handlers.{
  Kept, PlainEvent, keep_on_generator_registered, keep_on_idea, keep_on_research,
  keep_on_capability, keep_on_build, keep_on_product, keep_on_site, keep_on_deployment,
  keep_on_standard, keep_on_standard_version, keep_on_standard_desired, keep_on_sensor,
  keep_on_observation, keep_on_experiment, keep_on_arm, keep_on_arm_assigned, keep_on_failure,
  keep_on_task, keep_on_process, keep_on_process_run,
}

infixr 6 ◌&◌
abbrev ◌&◌ : {A B : Type 0} → A → B → A × B
a & b = (a, b)

module _ {P : Graph → Type 0} (kept : Kept P) where
  abbrev KeepsRow : Case → Type 0
  KeepsRow row = (e : Event) → PlainEvent e → Preserves P (row.1 e)

  keep_switch :
      (rows : List Case)
      → All KeepsRow rows
      → (e : Event) → PlainEvent e
      → Preserves P (switch rows e)
  keep_switch [] h e plain = Preserves-pure tt
  keep_switch ((type, run) ∷ rows) h e plain = elim (Bool-cases (type == e.type)) [
    | inl this ↦ rw this (h.0 e plain)
    | inr other ↦ rw other (keep_switch rows h.1 e plain)
  ]

  -- What both graph writes keep, the projection of an event with a plain id keeps, whether it
  -- ends or throws.
  pub project_event-Preserves : (e : Event) → PlainEvent e → Preserves P (project_event e)
  unfolding project_event cases
  project_event-Preserves = keep_switch cases (
      keep_on_generator_registered kept
      & keep_on_idea kept
      & keep_on_idea kept
      & keep_on_research kept
      & keep_on_capability kept
      & keep_on_build kept
      & keep_on_build kept
      & keep_on_product kept
      & keep_on_site kept
      & keep_on_deployment kept
      & keep_on_standard kept
      & keep_on_standard_version kept
      & keep_on_standard_desired kept
      & keep_on_sensor kept
      & keep_on_observation kept
      & keep_on_experiment kept
      & keep_on_arm kept
      & keep_on_arm_assigned kept
      & keep_on_failure kept
      & keep_on_task kept
      & keep_on_process kept
      & keep_on_process_run kept
      & keep_on_process_run kept
      & tt)

  project_all :
      (events : List Event) → All PlainEvent events → Preserves P (for_each project_event events)
  unfolding for_each
  project_all [] plain = Preserves-pure tt
  project_all (e ∷ events) plain =
      Preserves-then _ _ (project_event-Preserves e plain.0) (project_all events plain.1)

  -- A rebuild from a log of plain ids ends in a graph with every property that both writes keep
  -- and the empty graph has, whatever graph it began with.
  pub rebuild_projection_from_empty :
      (events : List Event) (g : Graph)
      → All PlainEvent events
      → P empty
      → P (rebuild_projection events g).1
  unfolding rebuild_projection ◌>>◌ clear
  rebuild_projection_from_empty events g plain h =
      (Preserves-then _ _ (project_all events plain) (Preserves-pure (length events))).keep empty h
