-- ===== src/Domains/Lookups.antt =====
-- The lookups in batches and the counts of clicks (src/domain-search/engine.js).
use finalbuilds.Prelude.{
  ℕ, zero, suc, ◌≤◌, ◌-◌, Bool, List, [], ◌∷◌, ◌++◌, ◌≡◌, refl, sym, ap, ◌∙◌, map, length, take,
  keep, arith, String,
}
use finalbuilds.Contract.Letters.{Codes}
use finalbuilds.Domains.Engine.{
  Registry, Engine, drop, rdap_check, is_free, batches, batch_rdap_check, clicks_of, set_clicks,
  sum_clicks, track_click, get_analytics,
}

keep-append :
    {A : Type 0} (p : A → Bool) (xs ys : List A) → keep p (xs ++ ys) ≡ keep p xs ++ keep p ys
keep-append p [] ys = refl
keep-append p (x ∷ xs) ys = ground (arith, keep-append p xs ys)

map-append : {A B : Type 0} (f : A → B) (xs ys : List A) → map f (xs ++ ys) ≡ map f xs ++ map f ys
map-append f [] ys = refl
map-append f (x ∷ xs) ys = ap (◌∷◌ (f x)) (map-append f xs ys)

take-drop : {A : Type 0} (n : ℕ) (xs : List A) → take n xs ++ drop n xs ≡ xs
take-drop zero xs = refl
take-drop (suc n) [] = refl
take-drop (suc n) (x ∷ xs) = ap (◌∷◌ x) (take-drop n xs)

length-drop : {A : Type 0} (n : ℕ) (xs : List A) → length (drop n xs) ≡ length xs - n
length-drop zero xs = omega arith
length-drop (suc n) [] = omega arith
length-drop (suc n) (x ∷ xs) = omega (arith, length-drop n xs)

batches_all :
    (fetch : Registry) (fuel : ℕ) (domains : List Codes)
    → length domains ≤ fuel
    → batches fetch fuel domains ≡ keep is_free (map (rdap_check fetch) domains)
unfolding batches
batches_all fetch zero [] h = refl
batches_all fetch zero (d ∷ domains) h = absurd (omega arith)
batches_all fetch (suc fuel) [] h = refl
batches_all fetch (suc fuel) (d ∷ domains) h =
    let all = d ∷ domains in
    let check = map (rdap_check fetch) in
    let shorter : length (drop 10 all) ≤ fuel = omega (arith, length-drop 10 all) in
    ap (λ rest. keep is_free (check (take 10 all)) ++ rest)
      (batches_all fetch fuel (drop 10 all) shorter)
    ∙ sym (keep-append is_free (check (take 10 all)) (check (drop 10 all)))
    ∙ ap (keep is_free) (sym (map-append (rdap_check fetch) (take 10 all) (drop 10 all)))
    ∙ ap (λ ds. keep is_free (check ds)) (take-drop 10 all)

-- Ten at a time, the lookups give the free names of all, in their order.
pub batch_rdap_check-keep :
    (fetch : Registry) (domains : List Codes)
    → batch_rdap_check fetch domains ≡ keep is_free (map (rdap_check fetch) domains)
unfolding batch_rdap_check
batch_rdap_check-keep fetch domains = batches_all fetch (length domains) domains (omega arith)

sum_set_clicks :
    (d : Codes) (cs : List (Codes × ℕ))
    → sum_clicks (set_clicks d (suc (clicks_of d cs)) cs) ≡ suc (sum_clicks cs)
sum_set_clicks d [] = omega arith
sum_set_clicks d ((k, n) ∷ cs) = ground (arith, sum_set_clicks d cs)

-- A click that is tracked, of whatever query, makes the total of the analytics one greater.
pub total_clicks-track_click :
    (query_id time : String) (domain : Codes) (e : Engine)
    → (get_analytics (track_click query_id domain time e).1).total_clicks
      ≡ suc (get_analytics e).total_clicks
unfolding track_click get_analytics
total_clicks-track_click query_id time domain e = sum_set_clicks domain e.clicks
