-- ===== src/Domains/Tests.antt =====
-- Searches for names on small registries.
use finalbuilds.Prelude.{List, [], ◌∷◌, ◌≡◌, refl, map, keep, length, All, suc}
use finalbuilds.Prelude.Exec.{ok}
use finalbuilds.Contract.Letters.{Codes, codes, lower}
use finalbuilds.Domains.Candidates.{generate_candidates}
use finalbuilds.Domains.Score.{score_domain}
use finalbuilds.Domains.Spelling.{candidates_spell, Spells, DistinctCodes}
use finalbuilds.Domains.Engine.{
  Registry, Engine, batch_rdap_check, rdap_check, is_free, search, track_click, get_analytics,
}
use finalbuilds.Domains.Lookups.{batch_rdap_check-keep, total_clicks-track_click}

abbrev all_free : Registry
all_free = λ url. ok 404

abbrev names : List Codes
names = codes "a.com" ∷ codes "b.com" ∷ []

abbrev fresh : Engine
fresh = record { queries = []; clicks = [] }

best_test : score_domain (codes "get.com") (codes "get") ≡ 14
unfolding score_domain
best_test = refl

strong_test : score_domain (codes "get200.com") (codes "get") ≡ 17
unfolding score_domain
strong_test = refl

-- A concept with a capital matches none of its own candidates.
capital_test : score_domain (codes "get.com") (codes "Get") ≡ 11
unfolding score_domain
capital_test = refl

count_test : length (generate_candidates (codes "Git") (codes "com" ∷ [])) ≡ 47
unfolding generate_candidates
count_test = refl

search_test : (search all_free "1" "now" (codes "git") (codes "com" ∷ []) 20 fresh).0.available ≡ 47
unfolding search
search_test = refl

candidates_spell_example :
    DistinctCodes (generate_candidates (codes "Git") (codes "com" ∷ []))
    × All (Spells (map lower (codes "Git"))) (generate_candidates (codes "Git") (codes "com" ∷ []))
candidates_spell_example = candidates_spell (codes "Git") (codes "com" ∷ [])

batch_rdap_check-keep_example :
    batch_rdap_check all_free names ≡ keep is_free (map (rdap_check all_free) names)
batch_rdap_check-keep_example = batch_rdap_check-keep all_free names

total_clicks-track_click_example :
    (get_analytics (track_click "q-1" (codes "a.com") "now" fresh).1).total_clicks
    ≡ suc (get_analytics fresh).total_clicks
total_clicks-track_click_example = total_clicks-track_click "q-1" "now" (codes "a.com") fresh
