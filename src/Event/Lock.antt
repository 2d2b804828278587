-- ===== src/Event/Lock.antt =====
-- The directory lock of `JsonlEventStore` (`append` and `appendEnvelope` of src/event/jsonl-store.js)
-- as a transition system: each step is one call of the file system by one writer, but that of
-- `appendFile`, whose line reaches the file in two pieces, with steps of other writers between them.
-- Writers are numbered; a writer's number stands for its nonce and for the line that it appends.
pub mod Alone
pub mod Whole
mod Tests
use finalbuilds.Prelude.{
  ℕ, ◌+◌, ◌-◌, ◌<◌, Bool, true, false, ◌≡◌, Option, none, some, List, [], ◌∷◌, ◌++◌, eqb, ltb,
  if◌then◌else◌,
}

-- Where a writer is: before its `mkdir`; after an EEXIST; about to remove a stale lock; between its
-- `mkdir` and the write of the owner file; before its append; in the midst of it; before it reads the owner file back;
-- before it removes its own lock; at the end; thrown by the write of the owner file.
pub data Phase : Type 0 where
  trying blocked stealing made holding writing appended removing done thrown : Phase

-- The owner file: who wrote it, and when.
pub record Owner : Type 0 where
  pub writer : ℕ
  pub mtime : ℕ

-- A piece of a writer's line: its head, or its tail with the line break.
pub data Piece : Type 0 where
  head tail : ℕ → Piece

-- The lock directory, with its owner file where there is one; the log; the clock.
pub record Disk : Type 0 where
  pub lock : Option (Option Owner)
  pub log : List Piece
  pub now : ℕ

pub record System : Type 0 where
  pub disk : Disk
  pub phase : ℕ → Phase

abbrev pub move : System → ℕ → Phase → Disk → System
move s i p d = record { disk = d; phase = λ j. if eqb i j then p else s.phase j }

-- `Date.now() - ownerMtime > 5000`, the time of a missing file being 0.
abbrev pub is_stale : Option Owner → ℕ → Bool
is_stale none now = ltb 5000 now
is_stale (some owner) now = ltb (owner.mtime + 5000) now

-- The owner file names the writer.
abbrev pub is_own : ℕ → Option (Option Owner) → Bool
is_own i none = false
is_own i (some none) = false
is_own i (some (some owner)) = eqb owner.writer i

pub data Step (s : System) : System → Type 0 where
  make :
      (i : ℕ)
      → s.phase i ≡ trying
      → s.disk.lock ≡ none
      → Step s (move s i made (record (s.disk) { lock = some none }))
  collide :
      (i : ℕ) (o : Option Owner)
      → s.phase i ≡ trying
      → s.disk.lock ≡ some o
      → Step s (move s i blocked (s.disk))
  write_owner :
      (i : ℕ) (o : Option Owner)
      → s.phase i ≡ made
      → s.disk.lock ≡ some o
      → Step s (
          move s i holding
            (record (s.disk) { lock = some (some (record { writer = i; mtime = s.disk.now })) }))
  write_fails : (i : ℕ) → s.phase i ≡ made → s.disk.lock ≡ none → Step s (move s i thrown (s.disk))
  wait :
      (i : ℕ) (o : Option Owner)
      → s.phase i ≡ blocked
      → s.disk.lock ≡ some o
      → is_stale o s.disk.now ≡ false
      → Step s (move s i trying (s.disk))
  find_stale :
      (i : ℕ) (o : Option Owner)
      → s.phase i ≡ blocked
      → s.disk.lock ≡ some o
      → is_stale o s.disk.now ≡ true
      → Step s (move s i stealing (s.disk))
  find_gone :
      (i : ℕ)
      → s.phase i ≡ blocked
      → s.disk.lock ≡ none
      → Step s (move s i (if ltb 5000 s.disk.now then stealing else trying) (s.disk))
  steal :
      (i : ℕ) → s.phase i ≡ stealing → Step s (move s i trying (record (s.disk) { lock = none }))
  append_head :
      (i : ℕ)
      → s.phase i ≡ holding
      → Step s (move s i writing (record (s.disk) { log = s.disk.log ++ head i ∷ [] }))
  append_tail :
      (i : ℕ)
      → s.phase i ≡ writing
      → Step s (move s i appended (record (s.disk) { log = s.disk.log ++ tail i ∷ [] }))
  read_own :
      (i : ℕ)
      → s.phase i ≡ appended
      → is_own i s.disk.lock ≡ true
      → Step s (move s i removing (s.disk))
  read_other :
      (i : ℕ)
      → s.phase i ≡ appended
      → is_own i s.disk.lock ≡ false
      → Step s (move s i done (s.disk))
  remove : (i : ℕ) → s.phase i ≡ removing → Step s (move s i done (record (s.disk) { lock = none }))
  tick : (n : ℕ) → s.disk.now < n → Step s (record s { disk = record (s.disk) { now = n } })

abbrev pub initial : List Piece → ℕ → System
initial log now = record {
  disk = record { lock = none; log = log; now = now };
  phase = λ i. trying;
}

pub data Reached (log : List Piece) (now : ℕ) : System → Type 0 where
  at_start : Reached log now (initial log now)
  then_step : {s t : System} → Reached log now s → Step s t → Reached log now t
