-- ===== src/Event/Bus/Replay.antt =====
-- The event log is the source of truth (src/event/bus.js, src/event/projector.js): replaying it
-- gives the live graph, as long as no emission failed to project.
use finalbuilds.Prelude.{
  ◌≡◌, refl, sym, ap, subst, ◌∙◌, ◌≢◌, List, [], ◌∷◌, ◌++◌, length, ◌⊎◌, inl, inr,
}
use finalbuilds.Prelude.Exec.{
  Exec, Outcome, ok, err, pure, ◌>>=◌, ◌>>◌, for_each, bind_ok, bind_err, bind_cases, Preserves,
  Preserves-pure, Preserves-then, Preserves-for_each,
}
use finalbuilds.Graph.InMemory.{Graph, GraphError, empty, clear}
use finalbuilds.Event.Log.{Event, event_of}
use finalbuilds.Event.Projector.{project_event, rebuild_projection}
use finalbuilds.Event.Bus.{
  World, BusError, projection_failed, Emission, Handlers, Handler, append_event, project,
  run_handler, emit, handlers_of, projection_result,
}

module _ {S E A : Type 0} (f : A → Exec S E (Unit {0})) where
  for_each-append_ok :
      (xs ys : List A) (s t : S)
      → for_each f xs s ≡ (ok tt, t)
      → for_each f (xs ++ ys) s ≡ for_each f ys t
  unfolding for_each
  for_each-append_ok [] ys s t e = ap (λ r. for_each f ys r.1) e
  for_each-append_ok (x ∷ xs) ys s t e =
      by_first (bind_cases (f x) (λ _. for_each f xs) s (ok tt) t e)
        (λ u. for_each-append_ok xs ys u t)
    where
      by_first :
          ((a : Unit {0}) × (u : S) × (f x s ≡ (ok a, u)) × (for_each f xs u ≡ (ok tt, t)))
            ⊎ ((z : E) × (f x s ≡ (err z, t)) × (◌≡◌ {A = Outcome E (Unit {0})} (ok tt) (err z)))
          → ((u : S) → for_each f xs u ≡ (ok tt, t) → for_each f (xs ++ ys) u ≡ for_each f ys t)
          → for_each f ((x ∷ xs) ++ ys) s ≡ for_each f ys t
      by_first (inl (a, u, first, rest)) rec =
          bind_ok (f x) (λ _. for_each f (xs ++ ys)) s a u first ∙ rec u rest
      by_first (inr (z, _, clash)) rec = cc

  for_each-append_err :
      (xs ys : List A) (s t : S) (z : E)
      → for_each f xs s ≡ (err z, t)
      → for_each f (xs ++ ys) s ≡ (err z, t)
  unfolding for_each
  for_each-append_err [] ys s t z e = cc
  for_each-append_err (x ∷ xs) ys s t z e =
      by_first (bind_cases (f x) (λ _. for_each f xs) s (err z) t e)
        (λ u. for_each-append_err xs ys u t z)
    where
      by_first :
          ((a : Unit {0}) × (u : S) × (f x s ≡ (ok a, u)) × (for_each f xs u ≡ (err z, t)))
            ⊎ ((y : E) × (f x s ≡ (err y, t)) × (◌≡◌ {A = Outcome E (Unit {0})} (err z) (err y)))
          → ((u : S) → for_each f xs u ≡ (err z, t) → for_each f (xs ++ ys) u ≡ (err z, t))
          → for_each f ((x ∷ xs) ++ ys) s ≡ (err z, t)
      by_first (inl (a, u, first, rest)) rec =
          bind_ok (f x) (λ _. for_each f (xs ++ ys)) s a u first ∙ rec u rest
      by_first (inr (y, first, same)) rec =
          bind_err (f x) (λ _. for_each f (xs ++ ys)) s y t first ∙ ap (λ o. (o, t)) (sym same)

  for_each_one_ok : (x : A) (s t : S) → f x s ≡ (ok tt, t) → for_each f (x ∷ []) s ≡ (ok tt, t)
  unfolding for_each
  for_each_one_ok x s t e = bind_ok (f x) (λ _. pure tt) s tt t e

  for_each_one_err :
      (x : A) (s t : S) (z : E) → f x s ≡ (err z, t) → for_each f (x ∷ []) s ≡ (err z, t)
  unfolding for_each
  for_each_one_err x s t z e = bind_err (f x) (λ _. pure tt) s z t e

-- Replaying the log from the empty graph gives the live graph.
abbrev pub Consistent : {D : Type 0} → World D → Type 0
Consistent w = for_each project_event w.log empty ≡ (ok tt, w.graph)

module _ {D E : Type 0} (handlers : Handlers D E) where
  -- Handlers leave the log and the graph alone.
  abbrev Same : List Event → Graph → World D → Type 0
  Same log g w = (w.log ≡ log) × (w.graph ≡ g)

  run_handlers-Same :
      (log : List Event) (g : Graph) (event : Event) (hs : List (Handler D E))
      → Preserves
          (Same log g)
          (for_each (run_handler event.payload) hs >> pure {E = BusError E} event)
  unfolding run_handler
  run_handlers-Same log g event hs =
      Preserves-then _ _
        (Preserves-for_each (run_handler event.payload) hs (λ h. record { keep = λ w same. same }))
        (Preserves-pure event)

  abbrev event_from : Emission → Event
  event_from m = event_of m.stamp m.type m.payload m.meta

  abbrev logged : Emission → World D → World D
  logged m w = record w { log = w.log ++ event_from m ∷ [] }

  -- What follows the projection in an emission.
  abbrev after : Emission → Exec (World D) (BusError E) Event
  after m = for_each (run_handler m.payload) (handlers_of m.type handlers) >> pure (event_from m)

  emit_unfold :
      (m : Emission) (w : World D)
      → emit handlers m w ≡ (project (event_from m) >>= λ _. after m) (logged m w)
  unfolding emit append_event ◌>>◌
  emit_unfold m w =
      bind_ok (append_event m)
        (λ event.
          project event
          >> (for_each (run_handler event.payload) (handlers_of m.type handlers) >> pure event))
        w (event_from m) (logged m w) refl

  emit_after_ok :
      (m : Emission) (w : World D) (g : Graph)
      → project_event (event_from m) w.graph ≡ (ok tt, g)
      → Same (w.log ++ event_from m ∷ []) g (emit handlers m w).1
  unfolding project
  emit_after_ok m w g e =
      let projected = record (logged m w) { graph = g } in
      let run : emit handlers m w ≡ after m projected =
        emit_unfold m w
        ∙ bind_ok (project (event_from m)) (λ _. after m) (logged m w) tt projected
            (ap (λ r. (projection_result r.0, record (logged m w) { graph = r.1 })) e) in
      subst (λ r. Same (w.log ++ event_from m ∷ []) g r.1) (sym run)
        ((run_handlers-Same (w.log ++ event_from m ∷ []) g (event_from m)
            (handlers_of m.type handlers)).keep
          projected (refl, refl))

  emit_after_err :
      (m : Emission) (w : World D) (g : Graph) (x : GraphError)
      → project_event (event_from m) w.graph ≡ (err x, g)
      → emit handlers m w ≡ (err (projection_failed x), record (logged m w) { graph = g })
  unfolding project
  emit_after_err m w g x e =
      emit_unfold m w
      ∙ bind_err (project (event_from m)) (λ _. after m) (logged m w) (projection_failed x)
          (record (logged m w) { graph = g })
          (ap (λ r. (projection_result r.0, record (logged m w) { graph = r.1 })) e)

  projection_cases :
      (e : Event) (g : Graph)
      → ((h : Graph) × (project_event e g ≡ (ok tt, h)))
        ⊎ ((x : GraphError) × (h : Graph) × (project_event e g ≡ (err x, h)))
  projection_cases e g = go (project_event e g).0 (project_event e g).1 refl
    where
      go :
          (r : Outcome GraphError (Unit {0})) (h : Graph)
          → project_event e g ≡ (r, h)
          → ((h : Graph) × (project_event e g ≡ (ok tt, h)))
            ⊎ ((x : GraphError) × (h : Graph) × (project_event e g ≡ (err x, h)))
      go (ok a) h e = inl (h, e)
      go (err x) h e = inr (x, h, e)

  -- An emission that does not fail to project keeps the log and the graph consistent, whatever its
  -- handlers do.
  emit-Consistent :
      (m : Emission) (w : World D)
      → Consistent w
      → ((x : GraphError) → (emit handlers m w).0 ≢ err (projection_failed x))
      → Consistent (emit handlers m w).1
  emit-Consistent m w c fine = elim (projection_cases (event_from m) w.graph) [
    | inl (h, e) ↦
        let same = emit_after_ok m w h e in
        rw (same.0, same.1)
          (for_each-append_ok project_event w.log (event_from m ∷ []) empty w.graph c
            ∙ for_each_one_ok project_event (event_from m) w.graph h e)
    | inr (x, h, e) ↦ absurd (fine x (ap (λ r. r.0) (emit_after_err m w h x e)))
  ]

  -- The worlds that emissions lead to from an empty log and an empty graph, none of which failed to
  -- project.
  pub data History : World D → Type 0 where
    start : (outer : D) → History (record { log = []; graph = empty; outer = outer })
    then_emit :
        {w : World D}
        → History w
        → (m : Emission) → ((x : GraphError) → (emit handlers m w).0 ≢ err (projection_failed x))
        → History (emit handlers m w).1

  History-Consistent : {w : World D} → History w → Consistent w
  unfolding for_each
  History-Consistent (start outer) = refl
  History-Consistent (then_emit {w = w} h m fine) = emit-Consistent m w (History-Consistent h) fine

  -- Over a history in which no emission failed to project, whatever the handlers did or threw,
  -- `rebuildProjection` of the log gives back the live graph, from any graph, and the log's length.
  pub rebuild_projection_replays :
      (w : World D) (g : Graph)
      → History w
      → rebuild_projection w.log g ≡ (ok (length w.log), w.graph)
  unfolding rebuild_projection clear ◌>>◌
  rebuild_projection_replays w g h =
      bind_ok clear (λ _. for_each project_event w.log >> pure (length w.log)) g tt empty refl
      ∙ bind_ok (for_each project_event w.log) (λ _. pure (length w.log)) empty tt w.graph
          (History-Consistent h)

  -- After a history of emissions none of which failed to project, where the projection of a further
  -- emission's event throws, the emission throws too, and the event is in the log all the same: from
  -- then on, with any events behind it, `rebuildProjection` of the log throws that error.
  pub emit_failed_poisons :
      (w : World D) (m : Emission) (x : GraphError) (h : Graph) (more : List Event) (g : Graph)
      → History w
      → project_event (event_of m.stamp m.type m.payload m.meta) w.graph ≡ (err x, h)
      → let (r, v) = emit handlers m w in
        (r ≡ err (projection_failed x)) × ((rebuild_projection (v.log ++ more) g).0 ≡ err x)
  unfolding rebuild_projection clear ◌>>◌
  emit_failed_poisons w m x h more g history failed =
      let emitted = emit_after_err m w h x failed in
      let log = w.log ++ event_from m ∷ [] in
      let replay : for_each project_event log empty ≡ (err x, h) =
        for_each-append_ok project_event w.log (event_from m ∷ []) empty w.graph
          (History-Consistent history)
        ∙ for_each_one_err project_event (event_from m) w.graph h x failed in
      let rebuilt : rebuild_projection (log ++ more) g ≡ (err x, h) =
        bind_ok clear (λ _. for_each project_event (log ++ more) >> pure (length (log ++ more))) g
          tt empty refl
        ∙ bind_err (for_each project_event (log ++ more)) (λ _. pure (length (log ++ more))) empty x
            h (for_each-append_err project_event log more empty h x replay) in
      (
        ap (λ r. r.0) emitted,
        subst (λ v. (rebuild_projection (v.log ++ more) g).0 ≡ err x) (ap (λ r. r.1) (sym emitted))
            (ap (λ r. r.0) rebuilt),
      )
