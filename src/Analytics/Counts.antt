-- ===== src/Analytics/Counts.antt =====
-- The grouped counts of app/analytics/service.py against a count of the orders one by one.
use vyapar_ai.Prelude.{
  ℕ, suc, String, ◌≡◌, refl, sym, ap, ◌∙◌, Bool, true, false, ◌||◌, ◌&&◌, some, List, [], ◌∷◌, map,
  any, length, ◌==◌, str_eq, eq_iff, arith, if◌then◌else◌, inl, inr, Bool-cases,
}
use vyapar_ai.Common.Result.{ok}
use vyapar_ai.Common.Dict.{Dict, lookup, set, lookup-set_same, lookup-set_other}
use vyapar_ai.Models.Order.{Order, OrderStatus, status_value}
use vyapar_ai.Models.Rows.{select}
use vyapar_ai.Database.Session.{Session, query}
use vyapar_ai.Database.Ends.{ok_injective}
use vyapar_ai.Analytics.{
  distinct, occurrences, group_count, no_counts, set_counts, statuses, order_counts_by_status,
}

any-distinct :
    (k : String) (ks : List String) → any (λ q. str_eq q k) (distinct ks) ≡ any (λ q. str_eq q k) ks
unfolding any distinct
any-distinct k [] = refl
any-distinct k (q ∷ ks) = elim (Bool-cases (any (λ p. str_eq p q) (distinct ks))) [
  | inl there ↦ elim (Bool-cases (str_eq q k)) [
    | inl t ↦ rw there (rw (sym ((eq_iff q k).0 t)) (rw (there, (eq_iff q q).1 refl) refl))
    | inr t ↦ rw (there, t) (any-distinct k ks)
  ]
  | inr fresh ↦ rw fresh (ap (λ rest. str_eq q k || rest) (any-distinct k ks))
]

occurrences_none :
    (k : String) (ks : List String) → any (λ q. str_eq q k) ks ≡ false → occurrences k ks ≡ 0
unfolding any occurrences
occurrences_none k [] h = refl
occurrences_none k (q ∷ ks) h = ground (arith, occurrences_none k ks)

if_same : {A : Type 0} (b : Bool) (x : A) → (if b then x else x) ≡ x
if_same true x = refl
if_same false x = refl

lookup-set_counts :
    (k : String) (f : String → ℕ) (ds : List String) (counts : Dict ℕ)
    → lookup k (set_counts counts (map (λ d. (d, f d)) ds))
      ≡ (if any (λ d. str_eq d k) ds then some (f k) else lookup k counts)
unfolding set_counts any
lookup-set_counts k f [] counts = refl
lookup-set_counts k f (d ∷ ds) counts =
    lookup-set_counts k f ds (set d (f d) counts) ∙ elim (Bool-cases (str_eq d k)) [
      | inl t ↦
          let here : lookup k (set d (f d) counts) ≡ some (f k) =
            rw ((eq_iff d k).0 t) (lookup-set_same k (f k) counts) in
          rw (t, here) (if_same (any (λ q. str_eq q k) ds) (some (f k)))
      | inr t ↦ rw (t, lookup-set_other k d (f d) counts t) refl
    ]

no_counts_has : (status : OrderStatus) → lookup (status_value status) no_counts ≡ some 0
unfolding lookup
no_counts_has OrderStatus.created = refl
no_counts_has OrderStatus.confirmed = refl
no_counts_has OrderStatus.paid = refl
no_counts_has OrderStatus.packed = refl
no_counts_has OrderStatus.shipped = refl
no_counts_has OrderStatus.delivered = refl
no_counts_has OrderStatus.completed = refl
no_counts_has OrderStatus.cancelled = refl

grouped :
    (status : OrderStatus) (ks : List String)
    → lookup (status_value status) (set_counts no_counts (group_count ks))
      ≡ some (occurrences (status_value status) ks)
unfolding group_count
grouped status ks =
    lookup-set_counts (status_value status) (λ k. occurrences k ks) (distinct ks) no_counts
    ∙ elim (Bool-cases (any (λ q. str_eq q (status_value status)) ks)) [
      | inl t ↦ rw (any-distinct (status_value status) ks ∙ t) refl
      | inr t ↦
          rw
            (any-distinct (status_value status) ks ∙ t, occurrences_none (status_value status) ks t)
            (no_counts_has status)
    ]

occurrences-map :
    {A : Type 0} (p : A → Bool) (g : A → String) (k : String) (rows : List A)
    → occurrences k (map g (select p rows)) ≡ length (select (λ r. p r && str_eq (g r) k) rows)
unfolding occurrences select
occurrences-map p g k [] = refl
occurrences-map p g k (r ∷ rows) = elim (Bool-cases (p r)) [
  | inr no_match ↦ rw no_match (occurrences-map p g k rows)
  | inl match ↦ elim (Bool-cases (str_eq (g r) k)) [
    | inl t ↦ rw (match, t) (ap suc (occurrences-map p g k rows))
    | inr t ↦ rw (match, t) (occurrences-map p g k rows)
  ]
]

-- The orders of a business that are in a state.
abbrev pub is_in : ℕ → OrderStatus → Order → Bool
is_in business_id status o =
    o.business_id == business_id && str_eq (status_value o.status) (status_value status)

-- The grouped counts are exact: for every state, those without an order included, the dictionary has
-- the number of the business's orders that are in the state.
pub order_counts_by_status-exact :
    (business_id : ℕ) (s : Session) (status : OrderStatus) {counts : Dict ℕ}
    → (order_counts_by_status business_id s).0 ≡ ok counts
    → lookup (status_value status) counts
      ≡ some (length (select (is_in business_id status) s.work.orders))
unfolding order_counts_by_status query
order_counts_by_status-exact business_id s status h =
    ap (lookup (status_value status)) (sym (ok_injective h))
    ∙ grouped status (statuses business_id s.work)
    ∙ ap some (
        occurrences-map (λ (o : Order). o.business_id == business_id)
          (λ (o : Order). status_value o.status) (status_value status) s.work.orders)
