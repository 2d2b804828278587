-- ===== src/Contract/Letters.antt =====
-- `toLowerCase`, `toUpperCase`, `replace` and `includes` on texts (contracts/index.js), over the
-- codes of the characters. The case maps are those of ASCII.
use Prim.Native.Char.{code}
use finalbuilds.Prelude.{
  ℕ, ◌+◌, ◌-◌, String, Bool, true, false, ◌&&◌, ◌||◌, List, [], ◌∷◌, leb, eqb, if◌then◌else◌,
}

abbrev pub Codes : Type 0
Codes = List ℕ

abbrev pub codes : String → Codes
codes String.[] = []
codes (String.◌∷◌ c s) = code c ∷ codes s

unfoldable pub lower : ℕ → ℕ
lower c = if leb b'A' c && leb c b'Z' then c + 32 else c

unfoldable pub upper : ℕ → ℕ
upper c = if leb b'a' c && leb c b'z' then c - 32 else c

-- `s.replace(/-/g, '_')`, for one character.
unfoldable pub underscored : ℕ → ℕ
underscored c = if eqb c b'-' then b'_' else c

abbrev pub same_codes : Codes → Codes → Bool
same_codes [] [] = true
same_codes (a ∷ s) (b ∷ t) = eqb a b && same_codes s t
same_codes _ _ = false

abbrev pub begins_with : Codes → Codes → Bool
begins_with s [] = true
begins_with [] (b ∷ t) = false
begins_with (a ∷ s) (b ∷ t) = eqb a b && begins_with s t

-- `s.includes(t)`
abbrev pub has_part : Codes → Codes → Bool
has_part [] t = begins_with [] t
has_part (a ∷ s) t = begins_with (a ∷ s) t || has_part s t
