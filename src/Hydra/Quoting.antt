-- ===== src/Hydra/Quoting.antt =====
-- What `cypherString` of src/graph/hydradb/projector.js writes between quotes, against a reader of
-- single-quoted texts with backslash escapes.
use Prim.Native.Char.{Char, code}
use text.Mathlib.TextLemmas.{nil-append, cons-append, append_assoc}
use text.Mathlib.TextEquality.{Char-path}
use finalbuilds.Prelude.{
  String, Bool, true, false, ◌≡◌, refl, sym, ap, ◌∙◌, inl, inr, Option, none, some, eqb, Bool-cases,
  arith, if◌then◌else◌,
}
use finalbuilds.Prelude.Text.{◌<+>◌}
use finalbuilds.Hydra.Cypher.{replace_all, backslash, quote, newline, cypher_string}

-- The character that an escape stands for: `n` is a new line, any other stands for itself.
abbrev unescape : Char → Char
unescape c = if eqb (code c) b'n' then newline else c

abbrev push : Char → Option (String × String) → Option (String × String)
push c none = none
push c (some (s, rest)) = some (String.◌∷◌ c s, rest)

-- Reads up to the closing quote: what was quoted, and what follows. The Boolean says that a backslash
-- has just been read.
unfoldable pub read_quoted : Bool → String → Option (String × String)
read_quoted b String.[] = none
read_quoted true (String.◌∷◌ c s) = push (unescape c) (read_quoted false s)
read_quoted false (String.◌∷◌ c s) =
    let escaped = read_quoted true s in
    let plain = read_quoted false s in
    if eqb (code c) (code quote)
    then some ("", s)
    else if eqb (code c) (code backslash)
    then escaped
    else push c plain

replace_all-append :
    (c : Char) (t u v : String)
    → replace_all c t (u <+> v) ≡ replace_all c t u <+> replace_all c t v
replace_all-append c t String.[] v = ap (replace_all c t) (nil-append v) ∙ sym (nil-append _)
replace_all-append c t (String.◌∷◌ d u) v =
    ap (replace_all c t) (cons-append d u v)
    ∙ by_test (eqb (code d) (code c)) (replace_all-append c t u v)
  where
    by_test :
        (b : Bool)
        → replace_all c t (u <+> v) ≡ replace_all c t u <+> replace_all c t v
        → (if b then t <+> replace_all c t (u <+> v) else String.◌∷◌ d (replace_all c t (u <+> v)))
          ≡ (if b then t <+> replace_all c t u else String.◌∷◌ d (replace_all c t u))
            <+> replace_all c t v
    by_test true h = ap (λ x. t <+> x) h ∙ sym (append_assoc t _ _)
    by_test false h = ap (String.◌∷◌ d) h ∙ sym (cons-append d _ _)

-- What the three replacements make of one character.
abbrev escaped_char : Char → String
escaped_char c =
    if eqb (code c) (code backslash)
    then "\\\\"
    else if eqb (code c) (code quote)
    then "\\'"
    else if eqb (code c) (code newline)
    then "\\n"
    else String.◌∷◌ c ""

cypher_string-cons :
    (c : Char) (s : String) → cypher_string (String.◌∷◌ c s) ≡ escaped_char c <+> cypher_string s
unfolding cypher_string
cypher_string-cons c s = elim (Bool-cases (eqb (code c) (code backslash))) [
  | inl is ↦ rw (is) (
      ap (replace_all newline "\\n")
        (replace_all-append quote "\\'" "\\\\" (replace_all backslash "\\\\" s))
      ∙ replace_all-append newline "\\n" "\\\\"
          (replace_all quote "\\'" (replace_all backslash "\\\\" s)))
  | inr not_b ↦ elim (Bool-cases (eqb (code c) (code quote))) [
    | inl is ↦
        rw (not_b, is)
          (replace_all-append newline "\\n" "\\'"
            (replace_all quote "\\'" (replace_all backslash "\\\\" s)))
    | inr not_q ↦ elim (Bool-cases (eqb (code c) (code newline))) [
      | inl is ↦ rw (not_b, not_q, is) refl
      | inr not_n ↦
          rw (not_b, not_q, not_n) (sym (cons-append c "" _ ∙ ap (String.◌∷◌ c) (nil-append _)))
    ]
  ]
]

two-append :
    (c d : Char) (s : String) → String.◌∷◌ c (String.◌∷◌ d "") <+> s ≡ String.◌∷◌ c (String.◌∷◌ d s)
two-append c d s =
    cons-append c _ s ∙ ap (String.◌∷◌ c) (cons-append d "" s ∙ ap (String.◌∷◌ d) (nil-append s))

same_code : (c d : Char) → eqb (code c) (code d) ≡ true → c ≡ d
same_code c d h = Char-path c d (ground arith)

-- Reading the escape of one character gives the character.
read-escaped_char :
    (c : Char) (s : String)
    → read_quoted false (escaped_char c <+> s) ≡ push c (read_quoted false s)
unfolding read_quoted
read-escaped_char c s = elim (Bool-cases (eqb (code c) (code backslash))) [
  | inl is ↦ rw (is, two-append "\\" "\\" s, same_code c backslash is)
  | inr not_b ↦ elim (Bool-cases (eqb (code c) (code quote))) [
    | inl is ↦ rw (not_b, is, two-append "\\" "'" s, same_code c quote is)
    | inr not_q ↦ elim (Bool-cases (eqb (code c) (code newline))) [
      | inl is ↦ rw (not_b, not_q, is, two-append "\\" "n" s, same_code c newline is)
      | inr not_n ↦ rw (not_b, not_q, not_n, cons-append c "" s, nil-append s, not_q, not_b)
    ]
  ]
]

-- Whatever text stands between the quotes that `pv` writes, and whatever follows, a reader gets the
-- text back and stops at the closing quote.
pub read-cypher_string :
    (s rest : String) → read_quoted false (cypher_string s <+> ("'" <+> rest)) ≡ some (s, rest)
unfolding cypher_string read_quoted
read-cypher_string String.[] rest =
    ap (read_quoted false)
      (nil-append _ ∙ cons-append "'" "" rest ∙ ap (String.◌∷◌ "'") (nil-append rest))
read-cypher_string (String.◌∷◌ c s) rest =
    ap (λ t. read_quoted false (t <+> ("'" <+> rest))) (cypher_string-cons c s)
    ∙ ap (read_quoted false) (append_assoc (escaped_char c) (cypher_string s) ("'" <+> rest))
    ∙ read-escaped_char c (cypher_string s <+> ("'" <+> rest))
    ∙ ap (push c) (read-cypher_string s rest)
