-- ===== src/Conversation/Resolver.antt =====
-- app/conversation/resolver.py: `ProductResolver`. `contains` is the comparison of PostgreSQL's ILIKE,
-- and `lower` Unicode's `str.lower`.
use vyapar_ai.Prelude.{
  String, ℕ, Bool, any, ◌||◌, some, none, List, [], ◌∷◌, ◌++◌, str_eq, if◌then◌else◌,
}
use vyapar_ai.Common.Text.{strip, ends_with_s, without_last, last_word}
use vyapar_ai.Models.Catalog.{Product}
use vyapar_ai.Database.Session.{Exec, pure, ◌>>=◌}
use vyapar_ai.Catalog.{list_products}

-- A candidate, and its singular.
unfoldable singulars : String → List String
unfolding ends_with_s without_last
singulars q = q ∷ (if ends_with_s q then without_last q ∷ [] else [])

-- De-duplicates and drops empty texts, in the order; `seen` has those before.
unfoldable dedup : List String → List String → List String
unfolding any
dedup seen [] = []
dedup seen (c ∷ cs) =
    let later = dedup (c ∷ seen) cs in
    let same = dedup seen cs in if str_eq c "" || any (str_eq c) seen then same else c ∷ later

-- `_candidates`
unfoldable pub candidates : (String → String) → String → List String
unfolding singulars dedup strip last_word
candidates lower query =
    let q = lower (strip query) in
    let last = last_word q in
    let more = if str_eq last q then [] else singulars last in
    if str_eq q "" then [] else dedup [] (singulars q ++ more)

-- `if matches: return matches`
abbrev pub or_next : List Product → Exec (List Product) → Exec (List Product)
or_next [] next = next
or_next matches next = pure matches

-- The loop of `resolve`.
unfoldable pub first_matches : (String → String → Bool) → ℕ → List String → Exec (List Product)
unfolding list_products
first_matches contains business_id [] = pure []
first_matches contains business_id (candidate ∷ rest) = do
  matches ← list_products contains business_id (some candidate) none
  or_next matches (first_matches contains business_id rest)

unfoldable pub resolve :
    (String → String → Bool) → (String → String) → ℕ → String → Exec (List Product)
unfolding first_matches candidates
resolve contains lower business_id query =
    first_matches contains business_id (candidates lower query)
