-- ===== src/Domains/Candidates.antt =====
-- `generateCandidates` (src/domain-search/engine.js), on the codes of the characters.
use finalbuilds.Prelude.{
  ℕ, zero, suc, Bool, true, false, List, [], ◌∷◌, ◌++◌, map, length, take, leb, ◌-◌, if◌then◌else◌,
}
use finalbuilds.Contract.Letters.{Codes, codes, lower, same_codes}

-- `s.slice(n)`
abbrev pub drop : ℕ → Codes → Codes
drop zero s = s
drop (suc n) [] = []
drop (suc n) (c ∷ s) = drop n s

-- `s.split('').join('-')`
abbrev pub dashed : Codes → Codes
dashed [] = []
dashed (c ∷ []) = c ∷ []
dashed (c ∷ d ∷ s) = c ∷ b'-' ∷ dashed (d ∷ s)

-- `${name}.${t}` for each of the top-level domains.
abbrev pub under : List Codes → Codes → List Codes
under [] name = []
under (t ∷ tlds) name = (name ++ b'.' ∷ t) ∷ under tlds name

abbrev pub separated : List Codes → Codes → List Codes
separated tlds word = if leb 3 (length word) then under tlds (dashed word) else []

-- The variants split at `i`, `i + 1`, ..., `n` of them.
abbrev pub splits : List Codes → Codes → ℕ → ℕ → List Codes
splits tlds word i zero = []
splits tlds word i (suc n) =
    under tlds (take i word ++ b'-' ∷ drop i word) ++ splits tlds word (suc i) n

abbrev pub suffixes : List Codes
suffixes = map codes (
    "api" ∷ "tool" ∷ "util" ∷ "ops" ∷ "fn" ∷ "run" ∷ "hub" ∷ "lab" ∷ "kit" ∷ "pro" ∷ "go" ∷ "now"
    ∷ "io" ∷ "net" ∷ "dev" ∷ "cap" ∷ "cmd" ∷ "do" ∷ [])

abbrev pub compound : List Codes → Codes → Codes → List Codes
compound [] word s = []
compound (t ∷ tlds) word s =
    (word ++ (s ++ b'.' ∷ t)) ∷ (word ++ b'-' ∷ (s ++ b'.' ∷ t)) ∷ compound tlds word s

abbrev pub compounds : List Codes → Codes → List Codes → List Codes
compounds tlds word [] = []
compounds tlds word (s ∷ ss) = compound tlds word s ++ compounds tlds word ss

abbrev pub status_codes : List Codes
status_codes = map codes ("200" ∷ "204" ∷ "206" ∷ "301" ∷ "404" ∷ "418" ∷ "42" ∷ "64" ∷ "101" ∷ [])

abbrev pub coded : List Codes → Codes → List Codes → List Codes
coded tlds word [] = []
coded tlds word (c ∷ cs) = under tlds (word ++ c) ++ coded tlds word cs

abbrev pub has : List Codes → Codes → Bool
has [] s = false
has (x ∷ xs) s = if same_codes x s then true else has xs s

-- `[...new Set(candidates)]`: the first of equal ones stays, and `seen` has those that came before.
abbrev pub once_each : List Codes → List Codes → List Codes
once_each seen [] = []
once_each seen (x ∷ xs) = if has seen x then once_each seen xs else x ∷ once_each (x ∷ seen) xs

-- `generateCandidates(concept, tlds)`
unfoldable pub generate_candidates : Codes → List Codes → List Codes
unfolding lower
generate_candidates concept tlds =
    let word = map lower concept in
    once_each [] (
      separated tlds word
      ++ (splits tlds word 2 (length word - 2)
          ++ (compounds tlds word suffixes ++ coded tlds word status_codes)))
