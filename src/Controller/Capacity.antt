-- ===== src/Controller/Capacity.antt =====
-- Which builds a tick starts (src/controller/factory-controller.js).
use mathlib.Core.List.{cons≢nil}
use finalbuilds.Prelude.{
  ℕ, suc, ◌+◌, ◌≤◌, String, Bool, true, false, not, List, [], ◌∷◌, ◌≡◌, refl, sym, ap, ◌∙◌, inl,
  inr, map, keep, length, In, All, In-append_cases, arith, subst, Bool-cases,
}
use finalbuilds.Prelude.Text.{includes}
use finalbuilds.Prelude.Exec.{Exec, ok, pure, ◌>>=◌, Gives, Gives-pure, Gives-bind, Gives-then}
use finalbuilds.Model.Value.{Value, Document}
use finalbuilds.Graph.InMemory.{Entity}
use finalbuilds.Event.Bus.{World, BusError, Handlers, emit}
use finalbuilds.Planner.Select.{select}
use finalbuilds.Planner.Best.{select_capacity, In-of_select}
use finalbuilds.Controller.Candidates.{
  Candidate, Scoring, scale_of, active_count, already, candidate_of, candidates, builds_of,
  ideas_of,
}
use finalbuilds.Controller.Factory.{
  Fresh, Started, start_build, hand_over, answered_with, started_of, start_builds, tick,
}

In-keep_cases :
    {A : Type 0} (p : A → Bool) (a : A) (xs : List A) → In a (keep p xs) → In a xs × (p a ≡ true)
In-keep_cases p a [] at = absurd at
In-keep_cases p a (x ∷ xs) at = elim (Bool-cases (p x)) [
  | inr out ↦ let (old, fits) = In-keep_cases p a xs (rw out at at) in (inr old, fits)
  | inl into ↦ elim (rw into at at) [
    | inl same ↦ (inl same, ap p same ∙ into)
    | inr rest ↦ let (old, fits) = In-keep_cases p a xs rest in (inr old, fits)
  ]
]

In-map :
    {A B : Type 0} (f : A → B) (b : B) (xs : List A)
    → In b (map f xs)
    → (a : A) × In a xs × (b ≡ f a)
In-map f b [] at = absurd at
In-map f b (x ∷ xs) (inl same) = (x, inl refl, same)
In-map f b (x ∷ xs) (inr rest) = let (a, at, same) = In-map f b xs rest in (a, inr at, same)

-- The idea is one of the graph's and no live build is for it.
abbrev pub IsOpenIdea : List Entity → List Entity → String → Type 0
IsOpenIdea ideas builds id =
    ((i : Entity) × In i ideas × (id ≡ i.id)) × (includes (already builds) id ≡ false)

candidate-IsOpenIdea :
    (limits : List String) (ideas builds : List Entity) (c : Candidate)
    → In c (candidates limits ideas builds)
    → IsOpenIdea ideas builds c.id
unfolding candidates candidate_of
candidate-IsOpenIdea limits ideas builds c at =
    let fresh_ideas = keep (λ (i : Entity). not (includes (already builds) i.id)) ideas in
    let made = map (candidate_of limits) fresh_ideas in
    let among : In c made =
      elim (In-append_cases c (keep (λ d. d.aligned) made) (keep (λ d. not d.aligned) made) at) [
        | inl front ↦ (In-keep_cases (λ d. d.aligned) c made front).0
        | inr back ↦ (In-keep_cases (λ d. not d.aligned) c made back).0
      ] in
    let (i, there, same) = In-map (candidate_of limits) c fresh_ideas among in
    let (known, open_to) =
      In-keep_cases (λ (j : Entity). not (includes (already builds) j.id)) i ideas there in
    let id_same : c.id ≡ i.id = ap (λ d. d.id) same in
    ((i, known, id_same), ap (includes (already builds)) id_same ∙ not_true open_to)
  where
    not_true : {b : Bool} → not b ≡ true → b ≡ false
    not_true {b = true} h = sym h
    not_true {b = false} h = refl

abbrev rest_of : List String → List String
rest_of [] = []
rest_of (x ∷ xs) = xs

abbrev first_or : String → List String → String
first_or d [] = d
first_or d (x ∷ xs) = x

same_length :
    (ss : List Started) (cs : List Candidate)
    → map (λ s. s.idea) ss ≡ map (λ c. c.id) cs
    → length ss ≡ length cs
same_length [] [] e = refl
same_length [] (c ∷ cs) e = absurd (cons≢nil (sym e))
same_length (s ∷ ss) [] e = absurd (cons≢nil e)
same_length (s ∷ ss) (c ∷ cs) e = omega (arith, same_length ss cs (ap rest_of e))

started-IsOpenIdea :
    (ideas builds : List Entity) (cs : List Candidate) (ss : List Started)
    → map (λ s. s.idea) ss ≡ map (λ c. c.id) cs
    → ((c : Candidate) → In c cs → IsOpenIdea ideas builds c.id)
    → All (λ s. IsOpenIdea ideas builds s.idea) ss
started-IsOpenIdea ideas builds cs [] e every = tt
started-IsOpenIdea ideas builds [] (s ∷ ss) e every = absurd (cons≢nil e)
started-IsOpenIdea ideas builds (c ∷ cs) (s ∷ ss) e every = (
  subst (IsOpenIdea ideas builds) (sym (ap (first_or "") e)) (every c (inl refl)),
  started-IsOpenIdea ideas builds cs ss (ap rest_of e) (λ d at. every d (inr at)),
)

module _ {D E : Type 0} (handlers : Handlers D E) (dispatch : Document → Exec D E Document) where
  start_build_idea :
      (fresh : Fresh) (n : ℕ) (c : Candidate) (evaluation : Value)
      → Gives (λ s. s.idea ≡ c.id) (start_build handlers dispatch fresh n c evaluation)
  unfolding start_build
  start_build_idea fresh n c evaluation =
      Gives-then (λ s. s.idea ≡ c.id) (hand_over handlers dispatch fresh n c evaluation)
        (λ result.
          emit handlers (answered_with handlers dispatch fresh n c evaluation result) >>= λ _.
          pure (started_of handlers dispatch fresh n c result))
        (λ result.
          Gives-then (λ s. s.idea ≡ c.id)
            (emit handlers (answered_with handlers dispatch fresh n c evaluation result))
            (λ _. pure (started_of handlers dispatch fresh n c result))
            (λ _.
              Gives-pure (λ s. s.idea ≡ c.id) (started_of handlers dispatch fresh n c result) refl))

  start_builds_ideas :
      (fresh : Fresh) (evaluation : Candidate → Value) (n : ℕ) (cs : List Candidate)
      → Gives
          (λ ss. map (λ s. s.idea) ss ≡ map (λ c. c.id) cs)
          (start_builds handlers dispatch fresh evaluation n cs)
  unfolding start_builds
  start_builds_ideas fresh evaluation n [] = Gives-pure (λ ss. map (λ r. r.idea) ss ≡ []) [] refl
  start_builds_ideas fresh evaluation n (c ∷ cs) =
      Gives-bind (λ s. s.idea ≡ c.id) (λ ss. map (λ r. r.idea) ss ≡ map (λ d. d.id) (c ∷ cs))
        (start_build handlers dispatch fresh n c (evaluation c))
        (λ s.
          start_builds handlers dispatch fresh evaluation (suc n) cs >>= λ more. pure (s ∷ more))
        (start_build_idea fresh n c (evaluation c))
        (λ s same.
          Gives-bind (λ ss. map (λ r. r.idea) ss ≡ map (λ d. d.id) cs)
            (λ ss. map (λ r. r.idea) ss ≡ map (λ d. d.id) (c ∷ cs))
            (start_builds handlers dispatch fresh evaluation (suc n) cs) (λ more. pure (s ∷ more))
            (start_builds_ideas fresh evaluation (suc n) cs)
            (λ more others.
              Gives-pure (λ ss. map (λ r. r.idea) ss ≡ map (λ d. d.id) (c ∷ cs)) (s ∷ more)
                (ap (λ id. id ∷ map (λ r. r.idea) more) same ∙ ap (◌∷◌ c.id) others)))

  tick-Gives :
      (fresh : Fresh) (evaluation : Candidate → Value) (active : ℕ) (cs : List Candidate)
      → Gives {S = World D} {E = BusError E} {A = ℕ × List Started}
          (λ r. (r.0 ≡ active) × (map (λ s. s.idea) r.1 ≡ map (λ c. c.id) cs))
          (start_builds handlers dispatch fresh evaluation 0 cs >>= λ dispatched.
            pure (active, dispatched))
  tick-Gives fresh evaluation active cs =
      Gives-bind (λ ss. map (λ r. r.idea) ss ≡ map (λ d. d.id) cs)
        (λ r. (r.0 ≡ active) × (map (λ s. s.idea) r.1 ≡ map (λ c. c.id) cs))
        (start_builds handlers dispatch fresh evaluation 0 cs)
        (λ dispatched. pure (active, dispatched)) (start_builds_ideas fresh evaluation 0 cs)
        (λ ss same.
          Gives-pure (λ r. (r.0 ≡ active) × (map (λ s. s.idea) r.1 ≡ map (λ c. c.id) cs))
            (active, ss) (refl, same))

  -- Where no more builds run than maxBuilding, a tick that does not throw reports the running builds,
  -- starts no more builds than its limit and, with those that run, no more than maxBuilding, and each
  -- of them is for an idea of the graph that no build is for but rejected and failed ones.
  pub tick_within :
      (scoring : Scoring) (limits : List String) (fresh : Fresh) (max_building limit active : ℕ)
      (started : List Started) (w t : World D)
      → tick handlers dispatch scoring limits fresh max_building limit w ≡ (ok (active, started), t)
      → active_count (builds_of w.graph) ≤ max_building
      → (active ≡ active_count (builds_of w.graph))
        × (active + length started ≤ max_building)
        × (length started ≤ limit)
        × All (λ s. IsOpenIdea (ideas_of w.graph) (builds_of w.graph) s.idea) started
  unfolding tick
  tick_within scoring limits fresh max_building limit active started w t e room =
      let builds = builds_of w.graph in
      let ideas = ideas_of w.graph in
      let scale = scale_of scoring in
      let cs = candidates limits ideas builds in
      let chosen = select scale cs limit (active_count builds) max_building in
      let (counted, same) =
        (tick-Gives fresh scoring.evaluation (active_count builds) chosen).given w t
          (active, started) e in
      let (fits, short) = select_capacity scale cs limit (active_count builds) max_building room in
      let as_many : length started ≡ length chosen = same_length started chosen same in
      (
        counted,
        omega (arith, fits, as_many, counted),
        omega (arith, short, as_many),
        started-IsOpenIdea ideas builds chosen started same (λ c at.
            candidate-IsOpenIdea limits ideas builds c
              (In-of_select scale cs limit (active_count builds) max_building c at)),
      )
