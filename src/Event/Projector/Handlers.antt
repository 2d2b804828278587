-- ===== src/Event/Projector/Handlers.antt =====
-- Whatever both graph writes keep, each case of `projectEvent` keeps (src/event/projector.js).
use Prim.Native.Char.{Char, code}
use finalbuilds.Prelude.{String, Bool, true, false, not, ◌&&◌, ◌≡◌, ap, ◌≢◌, some, arith, eqb}
use finalbuilds.Prelude.Exec.{
  Preserves, Preserves-pure, Preserves-then, Preserves-when, Preserves-for_each,
}
use finalbuilds.Model.Value.{Value, Document, truthy}
use finalbuilds.Graph.InMemory.{Graph, EntityInput, id_of, upsert_entity, link}
use finalbuilds.Graph.Index.{IsPlain, separator_char}
use finalbuilds.Graph.Links.{PlainInput}
use finalbuilds.Event.Log.{Event}
use finalbuilds.Event.Projector.{
  field, put, join, join_if, join_present, join_known, exists, on_generator_registered, on_idea,
  on_research, on_capability, on_build, on_product, on_site, on_deployment, on_standard,
  on_standard_version, on_standard_desired, on_sensor, on_observation, on_experiment, on_arm,
  on_arm_assigned, on_failure, on_task, on_process, on_process_run,
}

abbrev pub lacks : Char → String → Bool
lacks c String.[] = true
lacks c (String.◌∷◌ d s) = not (eqb (code c) (code d)) && lacks c s

code_ne : (c d : Char) → eqb (code c) (code d) ≡ false → c ≢ d
code_ne c d h e = let same : code c ≡ code d = ap code e in ground arith

-- The text is seen to be plain by a test.
pub IsPlain-of_lacks : (s : String) → lacks separator_char s ≡ true → IsPlain s
IsPlain-of_lacks String.[] h = tt
IsPlain-of_lacks (String.◌∷◌ d s) h =
    (code_ne separator_char d (ground arith), IsPlain-of_lacks s (ground arith))

-- The payload's id, where it has one, is plain.
abbrev pub PlainEvent : Event → Type 0
PlainEvent e = (id : String) → id_of (field "id" e) ≡ some id → IsPlain id

-- Both graph writes keep `P`.
pub record Kept (P : Graph → Type 0) : Type 0 where
  pub upsert : (input : EntityInput) → PlainInput input → Preserves P (upsert_entity input)
  pub link :
      (from : Value) (kind : String) (to : Value) (props : Document)
      → IsPlain kind
      → Preserves P (link from kind to props)

module _ {P : Graph → Type 0} (kept : Kept P) where
  keep_put :
      (e : Event) (type : String) (name : Value) (document : Document)
      → PlainEvent e
      → Preserves P (put (field "id" e) type name document)
  unfolding put
  keep_put e type name document plain = Preserves-then _ _ (kept.upsert _ plain) (Preserves-pure tt)

  keep_join :
      (from : Value) (kind : String) (to : Value) (props : Document)
      → lacks separator_char kind ≡ true
      → Preserves P (join from kind to props)
  unfolding join
  keep_join from kind to props h =
      Preserves-then _ _ (kept.link from kind to props (IsPlain-of_lacks kind h))
        (Preserves-pure tt)

  keep_join_if :
      (id from : Value) (kind : String) (to : Value) (time : String)
      → lacks separator_char kind ≡ true
      → Preserves P (join_if id from kind to time)
  unfolding join_if
  keep_join_if id from kind to time h = Preserves-when (truthy id) _ (keep_join from kind to _ h)

  keep_join_present :
      (v from : Value) (kind : String) (to : Value) (time : String)
      → lacks separator_char kind ≡ true
      → Preserves P (join_present v from kind to time)
  unfolding join_present
  keep_join_present v from kind to time h = record {
    keep = λ g p. (Preserves-when (exists g v) _ (keep_join from kind to _ h)).keep g p;
  }

  keep_join_known :
      (v from : Value) (kind : String) (to : Value) (time : String)
      → lacks separator_char kind ≡ true
      → Preserves P (join_known v from kind to time)
  unfolding join_known
  keep_join_known v from kind to time h = record {
    keep = λ g p. (Preserves-when (truthy v && exists g v) _ (keep_join from kind to _ h)).keep g p;
  }

  ruleset keep_rules = (
    keep_put, keep_join, keep_join_if, keep_join_present, keep_join_known, Preserves-then,
    Preserves-for_each,
  )

  pub keep_on_generator_registered :
      (e : Event) → PlainEvent e → Preserves P (on_generator_registered e)
  unfolding on_generator_registered
  keep_on_generator_registered e plain = search keep_rules

  pub keep_on_idea : (e : Event) → PlainEvent e → Preserves P (on_idea e)
  unfolding on_idea
  keep_on_idea e plain = search keep_rules

  pub keep_on_research : (e : Event) → PlainEvent e → Preserves P (on_research e)
  unfolding on_research
  keep_on_research e plain = search keep_rules

  pub keep_on_capability : (e : Event) → PlainEvent e → Preserves P (on_capability e)
  unfolding on_capability
  keep_on_capability e plain = search keep_rules

  pub keep_on_build : (e : Event) → PlainEvent e → Preserves P (on_build e)
  unfolding on_build
  keep_on_build e plain = search keep_rules

  pub keep_on_product : (e : Event) → PlainEvent e → Preserves P (on_product e)
  unfolding on_product
  keep_on_product e plain = search keep_rules

  pub keep_on_site : (e : Event) → PlainEvent e → Preserves P (on_site e)
  unfolding on_site
  keep_on_site e plain = search keep_rules

  pub keep_on_deployment : (e : Event) → PlainEvent e → Preserves P (on_deployment e)
  unfolding on_deployment
  keep_on_deployment e plain = search keep_rules

  pub keep_on_standard : (e : Event) → PlainEvent e → Preserves P (on_standard e)
  unfolding on_standard
  keep_on_standard e plain = search keep_rules

  pub keep_on_standard_version : (e : Event) → PlainEvent e → Preserves P (on_standard_version e)
  unfolding on_standard_version
  keep_on_standard_version e plain = search keep_rules

  pub keep_on_standard_desired : (e : Event) → PlainEvent e → Preserves P (on_standard_desired e)
  unfolding on_standard_desired
  keep_on_standard_desired e plain = search keep_rules

  pub keep_on_sensor : (e : Event) → PlainEvent e → Preserves P (on_sensor e)
  unfolding on_sensor
  keep_on_sensor e plain = search keep_rules

  pub keep_on_observation : (e : Event) → PlainEvent e → Preserves P (on_observation e)
  unfolding on_observation
  keep_on_observation e plain = search keep_rules

  pub keep_on_experiment : (e : Event) → PlainEvent e → Preserves P (on_experiment e)
  unfolding on_experiment
  keep_on_experiment e plain = search keep_rules

  pub keep_on_arm : (e : Event) → PlainEvent e → Preserves P (on_arm e)
  unfolding on_arm
  keep_on_arm e plain = search keep_rules

  pub keep_on_arm_assigned : (e : Event) → PlainEvent e → Preserves P (on_arm_assigned e)
  unfolding on_arm_assigned
  keep_on_arm_assigned e plain = search keep_rules

  pub keep_on_failure : (e : Event) → PlainEvent e → Preserves P (on_failure e)
  unfolding on_failure
  keep_on_failure e plain = search keep_rules

  pub keep_on_task : (e : Event) → PlainEvent e → Preserves P (on_task e)
  unfolding on_task
  keep_on_task e plain = search keep_rules

  pub keep_on_process : (e : Event) → PlainEvent e → Preserves P (on_process e)
  unfolding on_process
  keep_on_process e plain = search keep_rules

  pub keep_on_process_run : (e : Event) → PlainEvent e → Preserves P (on_process_run e)
  unfolding on_process_run
  keep_on_process_run e plain = search keep_rules
