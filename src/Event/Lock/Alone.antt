-- ===== src/Event/Lock/Alone.antt =====
-- Who is between a `mkdir` that succeeded and the release of the lock (src/event/jsonl-store.js).
use mathlib.Core.Option.{some-ne-none}
use finalbuilds.Prelude.{
  ℕ, Bool, true, false, ◌≡◌, ◌≢◌, refl, sym, ap, ◌∙◌, none, List, ltb, arith, if◌then◌else◌,
}
use finalbuilds.Event.Lock.{
  Phase, Piece, trying, blocked, stealing, made, holding, writing, appended, removing, done, thrown,
  Disk, System, move, Step, make, collide, write_owner, write_fails, wait, find_stale, find_gone,
  steal, append_head, append_tail, read_own, read_other, remove, tick, initial,
}

-- The writer's `mkdir` succeeded and it has not let go of the lock.
abbrev pub in_lock : Phase → Bool
in_lock made = true
in_lock holding = true
in_lock writing = true
in_lock appended = true
in_lock removing = true
in_lock p = false

-- The step removes no lock as stale.
abbrev pub IsCalm : {s t : System} → Step s t → Type 0
IsCalm (steal i p) = ⊥
IsCalm st = Unit

-- The states that a run without such a removal leads to.
pub data Undisturbed (log : List Piece) (now : ℕ) : System → Type 0 where
  unlocked : Undisturbed log now (initial log now)
  then_calm :
      {s t : System} → Undisturbed log now s → (st : Step s t) → IsCalm st → Undisturbed log now t

pub record Alone (s : System) : Type 0 where
  pub unique : (i j : ℕ) → in_lock (s.phase i) ≡ true → in_lock (s.phase j) ≡ true → i ≡ j
  pub locked : (i : ℕ) → in_lock (s.phase i) ≡ true → s.disk.lock ≢ none

module _ (s : System) (i : ℕ) (p : Phase) (d : Disk) (h : Alone s) where
  -- The writer stays out or goes out, and the lock is as it was.
  goes_out : in_lock p ≡ false → d.lock ≡ s.disk.lock → Alone (move s i p d)
  goes_out out kept = record {
    unique = λ j k a b. ground (arith, h.unique j k);
    locked = λ j a e. h.locked j (ground arith) (sym kept ∙ e);
  }

  -- The writer stays in, and there is a lock.
  stays_in : in_lock (s.phase i) ≡ true → d.lock ≢ none → Alone (move s i p d)
  stays_in inside there = record {
    unique = λ j k a b. ground (arith, h.unique j k, h.unique i k, h.unique j i);
    locked = λ j a e. there e;
  }

  -- The writer was in and goes out, with or without the lock.
  lets_go : in_lock (s.phase i) ≡ true → in_lock p ≡ false → Alone (move s i p d)
  lets_go inside out = record {
    unique = λ j k a b. ground (arith, h.unique j k);
    locked = λ j a e. ground (arith, h.unique i j);
  }

Step-Alone : {s t : System} (st : Step s t) → IsCalm st → Alone s → Alone t
Step-Alone {s = s} (make i p free) calm h = record {
  unique = λ j k a b. ground (arith, h.locked j, h.locked k);
  locked = λ j a e. cc;
}
Step-Alone {s = s} (collide i o p taken) calm h = goes_out s i blocked (s.disk) h refl refl
Step-Alone {s = s} (write_owner i o p taken) calm h =
    stays_in s i holding _ h (ap in_lock p) (λ e. some-ne-none _ e)
Step-Alone {s = s} (write_fails i p gone) calm h = goes_out s i thrown (s.disk) h refl refl
Step-Alone {s = s} (wait i o p taken fresh) calm h = goes_out s i trying (s.disk) h refl refl
Step-Alone {s = s} (find_stale i o p taken old) calm h = goes_out s i stealing (s.disk) h refl refl
Step-Alone {s = s} (find_gone i p gone) calm h =
    goes_out s i _ (s.disk) h (by_test (ltb 5000 s.disk.now)) refl
  where
    by_test : (b : Bool) → in_lock (if b then stealing else trying) ≡ false
    by_test true = refl
    by_test false = refl
Step-Alone {s = s} (steal i p) calm h = absurd calm
Step-Alone {s = s} (append_head i p) calm h =
    stays_in s i writing _ h (ap in_lock p) (h.locked i (ap in_lock p))
Step-Alone {s = s} (append_tail i p) calm h =
    stays_in s i appended _ h (ap in_lock p) (h.locked i (ap in_lock p))
Step-Alone {s = s} (read_own i p own) calm h =
    stays_in s i removing _ h (ap in_lock p) (h.locked i (ap in_lock p))
Step-Alone {s = s} (read_other i p other) calm h = goes_out s i done (s.disk) h refl refl
Step-Alone {s = s} (remove i p) calm h = lets_go s i done _ h (ap in_lock p) refl
Step-Alone {s = s} (tick n later) calm h = record { unique = h.unique; locked = h.locked }

pub Undisturbed-Alone : {log : List Piece} {now : ℕ} {s : System} → Undisturbed log now s → Alone s
Undisturbed-Alone unlocked = record { unique = λ i j a b. cc; locked = λ i a. cc }
Undisturbed-Alone (then_calm past st calm) = Step-Alone st calm (Undisturbed-Alone past)

-- In a run in which no writer removes a lock that it takes for stale, two writers are never between a
-- `mkdir` that succeeded and the release of the lock.
pub lock_excludes :
    (log : List Piece) (now : ℕ) (s : System) (i j : ℕ)
    → Undisturbed log now s
    → in_lock (s.phase i) ≡ true
    → in_lock (s.phase j) ≡ true
    → i ≡ j
lock_excludes log now s i j past = (Undisturbed-Alone past).unique i j
