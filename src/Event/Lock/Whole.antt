-- ===== src/Event/Lock/Whole.antt =====
-- The lines of the log stay whole under the lock (src/event/jsonl-store.js).
use finalbuilds.Prelude.{ℕ, suc, Bool, true, false, ◌≡◌, List, [], ◌∷◌, ◌++◌, eqb, if◌then◌else◌}
use mathlib.Core.List
use finalbuilds.Event.Lock.{Phase, Piece, head, tail, writing, appended, removing, done, System}
use finalbuilds.Event.Lock.Alone.{Alone}

-- The lines of the writers, each with its head and its tail together.
abbrev pub lines : List ℕ → List Piece
lines [] = []
lines (i ∷ is) = head i ∷ tail i ∷ lines is

abbrev pub is_writing : Phase → Bool
is_writing writing = true
is_writing p = false

-- The writer's `appendFile` is behind it.
abbrev pub has_appended : Phase → Bool
has_appended appended = true
has_appended removing = true
has_appended done = true
has_appended p = false

-- How often a writer is in a list.
abbrev pub times : ℕ → List ℕ → ℕ
times i [] = 0
times i (j ∷ js) = if eqb i j then suc (times i js) else times i js

-- The list has the writers that are past their append, each once, and no other.
abbrev pub AreWriters : System → List ℕ → Type 0
AreWriters s js = (j : ℕ) → times j js ≡ (if has_appended (s.phase j) then 1 else 0)

-- The log is the first lines, then a line of each writer that is past its append, and behind them the
-- head of the line of a writer that is writing it, where there is one.
pub data Tidy (is : List ℕ) (s : System) : Type 0 where
  between :
      (js : List ℕ)
      → AreWriters s js
      → s.disk.log ≡ lines (is ++ js)
      → ((j : ℕ) → is_writing (s.phase j) ≡ false)
      → Tidy is s
  within :
      (js : List ℕ) (i : ℕ)
      → AreWriters s js
      → s.disk.log ≡ lines (is ++ js) ++ head i ∷ []
      → is_writing (s.phase i) ≡ true
      → Tidy is s
