-- ===== src/Domains/Engine.antt =====
-- `DomainSearchEngine` (src/domain-search/engine.js): the search with its registry lookups, the clicks
-- and the analytics. The answers of the registry come from outside.
use finalbuilds.Prelude.{
  ℕ, zero, suc, ◌+◌, ◌-◌, Bool, true, false, Option, none, some, List, [], ◌∷◌, ◌++◌, map, length,
  take, keep, leb, eqb, String, if◌then◌else◌,
}
use finalbuilds.Prelude.Text.{◌<+>◌}
use finalbuilds.Prelude.Dict.{Dict, lookup, insert, values}
use finalbuilds.Prelude.Exec.{Outcome, ok, err}
use finalbuilds.Contract.Letters.{Codes, codes, same_codes}
use finalbuilds.Domains.Meanings.{Meaning, get_meaning}
use finalbuilds.Domains.Candidates.{generate_candidates}
use finalbuilds.Domains.Score.{score_domain}

-- `{ domain, registered, error }`; `none` is the `null` of a name that is not known to be free or taken.
pub record Check : Type 0 where
  pub domain : Codes
  pub registered : Option Bool
  pub error : Option String

-- The status that `fetch` of a URL answers with, or its error.
abbrev pub Registry : Type 0
Registry = Codes → Outcome String ℕ

abbrev of_status : Codes → Outcome String ℕ → Check
of_status domain (err e) = record { domain = domain; registered = none; error = some e }
of_status domain (ok status) = record {
  domain = domain;
  registered = if eqb status 200 then some true else (if eqb status 404 then some false else none);
  error = none;
}

-- `rdapCheck(domain)`
unfoldable pub rdap_check : Registry → Codes → Check
rdap_check fetch domain =
    of_status domain (fetch (codes "https://rdap.verisign.com/com/v1/domain/" ++ domain))

-- `r.registered === false`
abbrev pub is_free : Check → Bool
is_free c = elim c.registered [ none ↦ false | some b ↦ (if b then false else true) ]

abbrev pub drop {ℓ} : {A : Type ℓ} → ℕ → List A → List A
drop zero xs = xs
drop (suc n) [] = []
drop (suc n) (x ∷ xs) = drop n xs

-- `batchRdapCheck(domains)`, ten at a time, on fuel for the rounds.
unfoldable pub batches : Registry → ℕ → List Codes → List Check
unfolding rdap_check
batches fetch zero domains = []
batches fetch (suc fuel) [] = []
batches fetch (suc fuel) (d ∷ domains) =
    keep is_free (map (rdap_check fetch) (take 10 (d ∷ domains)))
    ++ batches fetch fuel (drop 10 (d ∷ domains))

unfoldable pub batch_rdap_check : Registry → List Codes → List Check
unfolding batches
batch_rdap_check fetch domains = batches fetch (length domains) domains

-- The entries of `getHostingOptions`: provider, type and note, each at no cost.
pub record Hosting : Type 0 where
  pub provider : String
  pub kind : String
  pub cost : ℕ
  pub note : String

abbrev pub get_hosting_options : Codes → List Hosting
get_hosting_options domain =
    record { provider = "Cloudflare"; kind = "Workers"; cost = 0; note = "Free, instant" }
    ∷ record { provider = "Cloudflare"; kind = "Custom Domain"; cost = 0; note = "Free with zone" }
    ∷ record { provider = "Vercel"; kind = "Deployment"; cost = 0; note = "Free tier" }
    ∷ record { provider = "Netlify"; kind = "Site"; cost = 0; note = "Free tier" }
    ∷ []

pub record Scored : Type 0 where
  pub check : Check
  pub score : ℕ
  pub meaning : Meaning
  pub hosting : List Hosting

unfoldable pub scored : Codes → Check → Scored
unfolding score_domain get_meaning
scored concept c = record {
  check = c;
  score = score_domain c.domain concept;
  meaning = get_meaning c.domain;
  hosting = get_hosting_options c.domain;
}

-- `sort((a, b) => b.score - a.score)` is stable.
abbrev pub place : Scored → List Scored → List Scored
place a [] = a ∷ []
place a (b ∷ bs) = if leb b.score a.score then a ∷ b ∷ bs else b ∷ place a bs

abbrev pub by_score : List Scored → List Scored
by_score [] = []
by_score (a ∷ bs) = place a (by_score bs)

-- What `queries` has of a search; `clicked` with its time.
pub record Query : Type 0 where
  pub concept : Codes
  pub timestamp : String
  pub results : ℕ
  pub top_result : Option Codes
  pub clicked : Option (Codes × String)

abbrev Clicks : Type 0
Clicks = List (Codes × ℕ)

pub record Engine : Type 0 where
  pub queries : Dict Query
  pub clicks : Clicks

pub record Answer : Type 0 where
  pub query_id : String
  pub concept : Codes
  pub total_candidates : ℕ
  pub available : ℕ
  pub results : List Scored

abbrev top_of : List Scored → Option Codes
top_of [] = none
top_of (a ∷ more) = some a.check.domain

-- `search(concept, { tlds, limit })`, with the milliseconds of the clock as a text and its time.
unfoldable pub search :
    Registry → String → String → Codes → List Codes → ℕ → Engine → Answer × Engine
unfolding generate_candidates batch_rdap_check scored
search fetch millis time concept tlds limit e =
    let candidates = generate_candidates concept tlds in
    let ranked = by_score (map (scored concept) (batch_rdap_check fetch candidates)) in
    let query_id = "q-" <+> millis in
    (
      record {
        query_id = query_id;
        concept = concept;
        total_candidates = length candidates;
        available = length ranked;
        results = take limit ranked;
      },
      record e {
        queries =
            insert query_id
              (record {
                concept = concept;
                timestamp = time;
                results = length ranked;
                top_result = top_of ranked;
                clicked = none;
              })
              e.queries;
      },
    )

-- `this.clicks.get(domain) || 0`
abbrev pub clicks_of : Codes → Clicks → ℕ
clicks_of d [] = 0
clicks_of d ((k, n) ∷ cs) = if same_codes k d then n else clicks_of d cs

abbrev pub set_clicks : Codes → ℕ → Clicks → Clicks
set_clicks d n [] = (d, n) ∷ []
set_clicks d n ((k, m) ∷ cs) = if same_codes k d then (k, n) ∷ cs else (k, m) ∷ set_clicks d n cs

abbrev mark_clicked : String → Codes → String → Dict Query → Dict Query
mark_clicked query_id domain time queries = elim (lookup query_id queries) [
  | none ↦ queries
  | some q ↦ insert query_id (record q { clicked = some (domain, time) }) queries
]

-- `trackClick(queryId, domain)`: the count of the answer, and the engine.
unfoldable pub track_click : String → Codes → String → Engine → ℕ × Engine
track_click query_id domain time e =
    let count = clicks_of domain e.clicks in
    (
      suc count,
      record {
        queries = mark_clicked query_id domain time e.queries;
        clicks = set_clicks domain (suc count) e.clicks;
      },
    )

abbrev pub place_click : Codes × ℕ → Clicks → Clicks
place_click a [] = a ∷ []
place_click a (b ∷ bs) = if leb b.1 a.1 then a ∷ b ∷ bs else b ∷ place_click a bs

abbrev pub by_clicks : Clicks → Clicks
by_clicks [] = []
by_clicks (a ∷ more) = place_click a (by_clicks more)

abbrev pub sum_clicks : Clicks → ℕ
sum_clicks [] = 0
sum_clicks ((k, n) ∷ cs) = n + sum_clicks cs

pub record Analytics : Type 0 where
  pub total_queries : ℕ
  pub total_clicks : ℕ
  pub top_domains : Clicks
  pub recent_queries : List Query

-- `getAnalytics()`
unfoldable pub get_analytics : Engine → Analytics
get_analytics e = record {
  total_queries = length e.queries;
  total_clicks = sum_clicks e.clicks;
  top_domains = take 10 (by_clicks e.clicks);
  recent_queries = drop (length e.queries - 10) (values e.queries);
}
