-- ===== src/Domains/Score.antt =====
-- `scoreDomain` (src/domain-search/engine.js).
use finalbuilds.Prelude.{ℕ, ◌+◌, [], ◌∷◌, length, keep, leb, eqb, if◌then◌else◌}
use finalbuilds.Contract.Letters.{Codes, codes, same_codes, begins_with, has_part}
use finalbuilds.Domains.Meanings.{Meaning, Strength, strong, medium, weak, name_part, get_meaning}

-- `domain.split('.')[1]`; one that is missing is none of the known ones, like the empty text.
abbrev tld_part : Codes → Codes
tld_part [] = []
tld_part (c ∷ s) = if eqb c b'.' then name_part s else tld_part s

abbrev length_points : ℕ → ℕ
length_points n =
    if leb n 3
    then 4
    else (if leb n 4 then 3 else (if leb n 6 then 2 else (if leb n 8 then 1 else 0)))

abbrev hyphen_points : Codes → ℕ
hyphen_points name =
    let hyphens = length (keep (λ c. eqb c b'-') name) in
    if eqb hyphens 0 then 3 else (if eqb hyphens 1 then 2 else (if eqb hyphens 2 then 1 else 0))

abbrev tld_points : Codes → ℕ
tld_points tld =
    if same_codes tld (codes "com")
    then 3
    else (if same_codes tld (codes "xyz")
        then 2
        else (if same_codes tld (codes "dev")
            then 2
            else (if same_codes tld (codes "site") then 1 else 0)))

abbrev match_points : Codes → Codes → ℕ
match_points name concept =
    if same_codes name concept
    then 3
    else (if begins_with name concept then 2 else (if has_part name concept then 1 else 0))

abbrev strength_points : Strength → ℕ
strength_points strong = 4
strength_points medium = 2
strength_points weak = 1

abbrev native_points : Meaning → ℕ
native_points m = (if m.developer_native then 2 else 0) + (if m.agent_native then 1 else 0)

-- `scoreDomain(domain, concept)`
unfoldable pub score_domain : Codes → Codes → ℕ
unfolding get_meaning
score_domain domain concept =
    let name = name_part domain in
    let meaning = get_meaning domain in
    length_points (length name)
    + hyphen_points name
    + tld_points (tld_part domain)
    + match_points name concept
    + strength_points meaning.strength
    + native_points meaning
