-- ===== src/Event/Lock/Tests.antt =====
-- Two writers at the lock, and the theorems on it at them.
use finalbuilds.Prelude.{ℕ, ◌≡◌, refl, some, none, [], ◌∷◌}
use finalbuilds.Event.Lock.{
  System, Phase, head, tail, holding, initial, move, make, collide, write_owner, find_stale, steal,
  append_head, append_tail, Reached, at_start, then_step,
}
use finalbuilds.Event.Lock.Alone.{Undisturbed, unlocked, then_calm, lock_excludes}

abbrev start : System
start = initial [] 10000

abbrev one_in : System
one_in = move start 0 Phase.made (record { lock = some none; log = []; now = 10000 })

one_in-Undisturbed : Undisturbed [] 10000 one_in
one_in-Undisturbed = then_calm unlocked (make 0 refl refl) tt

lock_excludes_example : ◌≡◌ {A = ℕ} 0 0
lock_excludes_example = lock_excludes [] 10000 one_in 0 0 one_in-Undisturbed refl refl

-- A writer that finds the lock before its owner file is written removes it at once, and both writers
-- come to append.
two_in : (s : System) × Reached [] 10000 s × (s.phase 0 ≡ holding) × (s.phase 1 ≡ holding)
two_in = (
  _,
  then_step
      (then_step
        (then_step
          (then_step
            (then_step
              (then_step (then_step at_start (make 0 refl refl)) (collide 1 none refl refl))
              (find_stale 1 none refl refl refl))
            (steal 1 refl))
          (make 1 refl refl))
        (write_owner 0 none refl refl))
      (write_owner 1 (some (record { writer = 0; mtime = 10000 })) refl refl),
  refl,
  refl,
)

-- Then their pieces mix: the log begins with two heads.
torn : (s : System) × Reached [] 10000 s × (s.disk.log ≡ head 0 ∷ head 1 ∷ tail 0 ∷ tail 1 ∷ [])
unfolding two_in
torn =
    let (s, past, p, q) = two_in in
    (
      _,
      then_step
          (then_step (then_step (then_step past (append_head 0 refl)) (append_head 1 refl))
            (append_tail 0 refl))
          (append_tail 1 refl),
      refl,
    )

abbrev one_writing : System
one_writing =
    let owned = some (some (record { writer = 0; mtime = 10000 })) in
    move (move one_in 0 holding (record { lock = owned; log = []; now = 10000 })) 0 Phase.writing
      (record { lock = owned; log = head 0 ∷ []; now = 10000 })
