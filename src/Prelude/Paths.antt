-- ===== src/Prelude/Paths.antt =====
-- `path.join` of a directory and a relative path on a POSIX system, and what it leaves of plain file
-- names.
use Prim.Native.Char.{Char, code}
use text.Mathlib.TextLemmas.{append_cancel_left, nil-append, cons-append, append-nil, append_assoc}
use mathlib.Core.List
use finalbuilds.Prelude.{
  String, Bool, true, false, not, ◌&&◌, ◌||◌, List, [], ◌∷◌, ◌++◌, ◌≡◌, refl, sym, ap, ◌∙◌, ◌==◌,
  All, eqb, arith, if◌then◌else◌,
}
use finalbuilds.Prelude.Text.{◌<+>◌}

abbrev pub slash : Char
slash = "/"

abbrev onto_head : Char → List String → List String
onto_head c [] = String.◌∷◌ c "" ∷ []
onto_head c (p ∷ ps) = String.◌∷◌ c p ∷ ps

-- `path.split('/')`
unfoldable pub split : String → List String
split String.[] = "" ∷ []
split (String.◌∷◌ c s) =
    let rest = split s in if eqb (code slash) (code c) then "" ∷ rest else onto_head c rest

abbrev pub drop_last : List String → List String
drop_last [] = []
drop_last (x ∷ []) = []
drop_last (x ∷ y ∷ xs) = x ∷ drop_last (y ∷ xs)

-- The path is absolute.
abbrev pub is_rooted : String → Bool
is_rooted String.[] = false
is_rooted (String.◌∷◌ c s) = eqb (code slash) (code c)

-- Nothing is left to go up from: the directory is empty or ends in `..`.
abbrev pub ends_up : List String → Bool
ends_up [] = true
ends_up (x ∷ []) = x == ".."
ends_up (x ∷ y ∷ xs) = ends_up (y ∷ xs)

-- `..` leads up; an absolute path stays at the root, a relative one keeps the `..`.
abbrev pub climb : Bool → List String → List String
climb true dir = drop_last dir
climb false dir = if ends_up dir then dir ++ ".." ∷ [] else drop_last dir

-- One part of a path, from a directory.
abbrev pub enter : Bool → List String → String → List String
enter root dir p =
    if p == "" || p == "." then dir else (if p == ".." then climb root dir else dir ++ p ∷ [])

unfoldable pub walk : Bool → List String → List String → List String
walk root dir [] = dir
walk root dir (p ∷ ps) = walk root (enter root dir p) ps

abbrev pub render : List String → String
render [] = ""
render (p ∷ ps) = "/" <+> (p <+> render ps)

-- A slash at the end of the last part stays.
abbrev pub ending : List String → String
ending [] = ""
ending (p ∷ []) = if p == "" then "/" else ""
ending (p ∷ q ∷ ps) = ending (q ∷ ps)

abbrev pub located : Bool → List String → String → String
located true [] end = "/"
located false [] end = "." <+> end
located true (p ∷ ps) end = render (p ∷ ps) <+> end
located false (p ∷ ps) end = p <+> (render ps <+> end)

-- `path.join(base, rest)`, of a `rest` that is relative and not empty.
unfoldable pub join : String → String → String
unfolding split walk
join base rest =
    let root = is_rooted base in
    located root (walk root (walk root [] (split base)) (split rest)) (ending (split rest))

abbrev pub no_slash : String → Bool
no_slash String.[] = true
no_slash (String.◌∷◌ c s) = not (eqb (code slash) (code c)) && no_slash s

-- A name that `path.join` leaves as it is.
unfoldable pub is_file_name : String → Bool
is_file_name s = not (s == "" || (s == "." || s == "..")) && no_slash s

abbrev pub IsFileName : String → Type 0
IsFileName s = is_file_name s ≡ true

pub IsFileName-no_slash : (s : String) → IsFileName s → no_slash s ≡ true
unfolding is_file_name
IsFileName-no_slash s h = ground arith

enter-IsFileName :
    (root : Bool) (dir : List String) (p : String) → IsFileName p → enter root dir p ≡ dir ++ p ∷ []
unfolding is_file_name
enter-IsFileName root dir p h = ground arith

ending-IsFileName : (ps : List String) → All IsFileName ps → ending ps ≡ ""
unfolding is_file_name
ending-IsFileName [] h = refl
ending-IsFileName (p ∷ []) h = let name = h.0 in ground arith
ending-IsFileName (p ∷ q ∷ ps) h = ending-IsFileName (q ∷ ps) h.1

walk-IsFileName :
    (root : Bool) (dir ps : List String) → All IsFileName ps → walk root dir ps ≡ dir ++ ps
unfolding walk
walk-IsFileName root dir [] h = sym (List.append-nil dir)
walk-IsFileName root dir (p ∷ ps) h =
    ap (λ d. walk root d ps) (enter-IsFileName root dir p h.0)
    ∙ walk-IsFileName root (dir ++ p ∷ []) ps h.1
    ∙ List.append_assoc dir (p ∷ []) ps

pub split-no_slash : (s : String) → no_slash s ≡ true → split s ≡ s ∷ []
unfolding split
split-no_slash String.[] h = refl
split-no_slash (String.◌∷◌ c s) h =
    let rest : split s ≡ s ∷ [] = split-no_slash s (ground arith) in ground (arith, rest)

-- The part before a slash is the first.
pub split-before : (s t : String) → no_slash s ≡ true → split (s <+> ("/" <+> t)) ≡ s ∷ split t
unfolding split
split-before String.[] t h =
    ap split
      (nil-append ("/" <+> t) ∙ cons-append slash "" t ∙ ap (String.◌∷◌ slash) (nil-append t))
split-before (String.◌∷◌ c s) t h =
    let rest : split (s <+> ("/" <+> t)) ≡ s ∷ split t = split-before s t (ground arith) in
    ap split (cons-append c s ("/" <+> t)) ∙ ground (arith, rest)

split-render :
    (p : String) (ps : List String)
    → no_slash p ≡ true
    → All IsFileName ps
    → split (p <+> render ps) ≡ p ∷ ps
split-render p [] h hs = ap split (append-nil p) ∙ split-no_slash p h
split-render p (q ∷ ps) h hs =
    split-before p (q <+> render ps) h
    ∙ ap (λ qs. p ∷ qs) (split-render q ps (IsFileName-no_slash q hs.0) hs.1)

render-append : (ps qs : List String) → render (ps ++ qs) ≡ render ps <+> render qs
render-append [] qs = sym (nil-append (render qs))
render-append (p ∷ ps) qs =
    ap (λ t. "/" <+> (p <+> t)) (render-append ps qs)
    ∙ ap (λ t. "/" <+> t) (sym (append_assoc p (render ps) (render qs)))
    ∙ sym (append_assoc "/" (p <+> render ps) (render qs))

located-append :
    (dir : List String) (p : String) (ps : List String)
    → located true (dir ++ p ∷ ps) "" ≡ render dir <+> render (p ∷ ps)
located-append [] p ps = append-nil _ ∙ sym (nil-append _)
located-append (d ∷ dir) p ps = append-nil _ ∙ render-append (d ∷ dir) (p ∷ ps)

render_inj :
    (dir : List String) (p q : String) (ps qs : List String)
    → render dir <+> render (p ∷ ps) ≡ render dir <+> render (q ∷ qs)
    → p <+> render ps ≡ q <+> render qs
render_inj dir p q ps qs e =
    append_cancel_left "/" (p <+> render ps) (q <+> render qs)
      (append_cancel_left (render dir) (render (p ∷ ps)) (render (q ∷ qs)) e)

located_inj :
    (root : Bool) (dir : List String) (p q : String) (ps qs : List String)
    → located root (dir ++ p ∷ ps) "" ≡ located root (dir ++ q ∷ qs) ""
    → p <+> render ps ≡ q <+> render qs
located_inj true dir p q ps qs e =
    render_inj dir p q ps qs (sym (located-append dir p ps) ∙ e ∙ located-append dir q qs)
located_inj false [] p q ps qs e =
    ap (λ t. p <+> t) (sym (append-nil (render ps)))
    ∙ e
    ∙ ap (λ t. q <+> t) (append-nil (render qs))
located_inj false (d ∷ dir) p q ps qs e = render_inj dir p q ps qs (
    sym (append-nil (render (dir ++ p ∷ ps)) ∙ render-append dir (p ∷ ps))
    ∙ append_cancel_left d (render (dir ++ p ∷ ps) <+> "") (render (dir ++ q ∷ qs) <+> "") e
    ∙ append-nil (render (dir ++ q ∷ qs))
    ∙ render-append dir (q ∷ qs))

module _ (base : String) where
  -- A relative path of plain names is put behind the directory.
  join-IsFileName :
      (rest p : String) (ps : List String)
      → split rest ≡ p ∷ ps
      → All IsFileName (p ∷ ps)
      → join base rest
        ≡ located (is_rooted base) (walk (is_rooted base) [] (split base) ++ p ∷ ps) ""
  unfolding join
  join-IsFileName rest p ps parts names =
      let root = is_rooted base in
      let dir = walk root [] (split base) in
      ap (λ qs. located root (walk root dir qs) (ending qs)) parts
      ∙ ap (λ end. located root (walk root dir (p ∷ ps)) end) (ending-IsFileName (p ∷ ps) names)
      ∙ ap (λ qs. located root qs "") (walk-IsFileName root dir (p ∷ ps) names)

  -- Below one directory, relative paths of plain names that are joined to the same path have the same
  -- names.
  pub join_inj :
      (r s p q : String) (ps qs : List String)
      → split r ≡ p ∷ ps
      → split s ≡ q ∷ qs
      → All IsFileName (p ∷ ps)
      → All IsFileName (q ∷ qs)
      → join base r ≡ join base s
      → p ∷ ps ≡ q ∷ qs
  join_inj r s p q ps qs rp sq hp hq e =
      let root = is_rooted base in
      let texts =
        located_inj root (walk root [] (split base)) p q ps qs
          (sym (join-IsFileName r p ps rp hp) ∙ e ∙ join-IsFileName s q qs sq hq) in
      sym (split-render p ps (IsFileName-no_slash p hp.0) hp.1)
      ∙ ap split texts
      ∙ split-render q qs (IsFileName-no_slash q hq.0) hq.1
