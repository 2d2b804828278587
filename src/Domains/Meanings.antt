-- ===== src/Domains/Meanings.antt =====
-- The known names of `getMeaning` (src/domain-search/engine.js).
use finalbuilds.Prelude.{
  String, Bool, true, false, [], ◌∷◌, ◌++◌, Option, none, some, eqb, not, keep, if◌then◌else◌,
}
use finalbuilds.Prelude.Dict.{Dict}
use finalbuilds.Contract.Letters.{Codes, codes, same_codes}

pub data Strength : Type 0 where
  strong medium weak : Strength

pub record Meaning : Type 0 where
  pub meaning : Codes
  pub strength : Strength
  pub developer_native : Bool
  pub agent_native : Bool

abbrev meant : String → Strength → Bool → Bool → Meaning
meant text strength developer agent = record {
  meaning = codes text;
  strength = strength;
  developer_native = developer;
  agent_native = agent;
}

abbrev meanings : Dict Meaning
meanings =
    ("get200", meant "GET something successfully (HTTP 200 OK)" strong true true)
    ∷ ("get204", meant "GET succeeded with no content (HTTP 204)" medium true false)
    ∷ ("get206", meant "Partial content (HTTP 206)" weak true false)
    ∷ ("get301", meant "Redirect (HTTP 301)" weak true false)
    ∷ ("get404", meant "Not found (ironic for a utility)" weak true false)
    ∷ ("get418", meant "I am a teapot (hacker culture)" weak true false)
    ∷ ("get42", meant "Answer to everything" medium true false)
    ∷ ("get64", meant "Base64/computing" weak true false)
    ∷ ("get101", meant "Primitives/fundamentals" medium true true)
    ∷ ("getapi", meant "GET an API" strong true true)
    ∷ ("gettool", meant "GET a tool" strong true true)
    ∷ ("getutil", meant "GET a utility" medium true true)
    ∷ ("getops", meant "GET operations" medium true true)
    ∷ ("getfn", meant "GET function" strong true true)
    ∷ ("getrun", meant "GET and run" medium true true)
    ∷ ("gethub", meant "GET hub" medium true false)
    ∷ ("getlab", meant "GET lab" medium true false)
    ∷ ("getkit", meant "GET kit" medium true false)
    ∷ ("getpro", meant "GET pro" medium true false)
    ∷ ("getgo", meant "GET go" medium true true)
    ∷ ("getnow", meant "GET now" medium true true)
    ∷ ("getio", meant "GET I/O" medium true false)
    ∷ ("getnet", meant "GET network" medium true false)
    ∷ ("getdev", meant "GET dev" medium true false)
    ∷ ("getcap", meant "GET capabilities" strong true true)
    ∷ ("getcmd", meant "GET command" medium true true)
    ∷ ("getdo", meant "GET do" medium true true)
    ∷ []

abbrev known : Codes → Dict Meaning → Option Meaning
known name [] = none
known name ((k, m) ∷ d) = if same_codes (codes k) name then some m else known name d

-- `domain.split('.')[0]`
abbrev pub name_part : Codes → Codes
name_part [] = []
name_part (c ∷ s) = if eqb c b'.' then [] else c ∷ name_part s

-- `name.replace(/-/g, '')`
abbrev pub unhyphened : Codes → Codes
unhyphened = keep (λ c. not (eqb c b'-'))

-- `getMeaning(domain)`
unfoldable pub get_meaning : Codes → Meaning
get_meaning domain =
    let name = unhyphened (name_part domain) in
    elim (known name meanings) [
      | some m ↦ m
      | none ↦ record {
        meaning = name ++ codes " (custom)";
        strength = weak;
        developer_native = false;
        agent_native = false;
      }
    ]
