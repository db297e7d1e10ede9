-- ===== src/Order/Lifecycle.antt =====
-- The table `TRANSITIONS` of app/order/models.py as a relation, and the histories of an order by it.
use vyapar_ai.Prelude.{
  ◌⊎◌, inl, inr, Bool, true, false, ℕ, ◌+◌, ◌≤◌, ◌≡◌, refl, sym, ap, ◌∙◌, ◌≢◌, some, List, [], ◌∷◌,
  length, arith,
}
use vyapar_ai.Models.Order.{
  OrderStatus, OrderEvent, InventoryEffect, Transition, transitions, created, confirmed, paid,
  packed, shipped, delivered, completed, cancelled, confirm, cancel, pay,
}

-- A history of an order: events that each had a rule when they came.
pub data Run : OrderStatus → List OrderEvent → OrderStatus → Type 0 where
  stop : {s : OrderStatus} → Run s [] s
  step :
      {s t : OrderStatus} {e : OrderEvent} {events : List OrderEvent} (rule : Transition)
      → transitions s e ≡ some rule
      → Run rule.to events t
      → Run s (e ∷ events) t

-- How far an order has come.
abbrev pub rank : OrderStatus → ℕ
rank created = 0
rank confirmed = 1
rank paid = 2
rank packed = 3
rank shipped = 4
rank delivered = 5
rank completed = 6
rank cancelled = 6

-- Whether the stock of an order's lines has been taken and not given back.
abbrev pub holds : OrderStatus → ℕ
holds created = 0
holds cancelled = 0
holds _ = 1

-- What an effect takes, and what it gives back.
abbrev pub takes : InventoryEffect → ℕ
takes InventoryEffect.decrement = 1
takes _ = 0

abbrev pub gives : InventoryEffect → ℕ
gives InventoryEffect.restore = 1
gives _ = 0

unfoldable pub all_taken : {s t : OrderStatus} {events : List OrderEvent} → Run s events t → ℕ
all_taken stop = 0
all_taken (step rule h r) = takes rule.effect + all_taken r

unfoldable pub all_given : {s t : OrderStatus} {events : List OrderEvent} → Run s events t → ℕ
all_given stop = 0
all_given (step rule h r) = gives rule.effect + all_given r

rises :
    (s : OrderStatus) (e : OrderEvent) (rule : Transition)
    → transitions s e ≡ some rule
    → rank s + 1 ≤ rank rule.to
unfolding transitions
rises s e rule h = ground arith

balances :
    (s : OrderStatus) (e : OrderEvent) (rule : Transition)
    → transitions s e ≡ some rule
    → holds s + takes rule.effect ≡ holds rule.to + gives rule.effect
unfolding transitions
balances s e rule h = ground arith

-- Whether the order may still be confirmed.
abbrev opens : OrderStatus → ℕ
opens created = 1
opens _ = 0

closes :
    (s : OrderStatus) (e : OrderEvent) (rule : Transition)
    → transitions s e ≡ some rule
    → takes rule.effect + opens rule.to ≤ opens s
unfolding transitions
closes s e rule h = ground arith

-- The statuses from the payment on.
abbrev pub is_settled : OrderStatus → Bool
is_settled created = false
is_settled confirmed = false
is_settled cancelled = false
is_settled _ = true

stays_settled :
    (s : OrderStatus) (e : OrderEvent) (rule : Transition)
    → transitions s e ≡ some rule
    → is_settled s ≡ true
    → is_settled rule.to ≡ true
unfolding transitions
stays_settled s e rule h k = ground arith

-- A cancelled order stays as it is.
closed : (e : OrderEvent) (rule : Transition) → transitions cancelled e ≢ some rule
unfolding transitions
closed e rule h = cc h

leaves_confirmed :
    (e : OrderEvent) (rule : Transition)
    → transitions confirmed e ≡ some rule
    → (e ≡ pay) ⊎ (rule.to ≡ cancelled)
unfolding transitions
leaves_confirmed pay rule h = inl refl
leaves_confirmed cancel rule h = inr (sym (cc h))
leaves_confirmed _ rule h = cc h

leaves_created :
    (e : OrderEvent) (rule : Transition)
    → transitions created e ≡ some rule
    → ((e ≡ confirm) × (rule.to ≡ confirmed)) ⊎ (rule.to ≡ cancelled)
unfolding transitions
leaves_created confirm rule h = inl (refl, cc h)
leaves_created cancel rule h = inr (cc h)
leaves_created _ rule h = cc h

rank_bound : (s : OrderStatus) → rank s ≤ 6
rank_bound s = ground arith

run_rank :
    {s t : OrderStatus} {events : List OrderEvent}
    → Run s events t
    → length events + rank s ≤ rank t
unfolding length
run_rank stop = omega arith
run_rank (step {s} {e = e} rule h r) = omega (arith, run_rank r, rises s e rule h)

run_opens :
    {s t : OrderStatus} {events : List OrderEvent} (r : Run s events t) → all_taken r ≤ opens s
unfolding all_taken
run_opens stop = omega arith
run_opens (step {s} {e = e} rule h r) = omega (arith, run_opens r, closes s e rule h)

-- A history has at most six events, less those that the first status has behind it: there is no
-- way back and no loop.
pub Run-length :
    {s t : OrderStatus} {events : List OrderEvent} → Run s events t → length events + rank s ≤ 6
Run-length {t = t} r = omega (arith, run_rank r, rank_bound t)

-- Along every history, what an order has taken and not given back is what its status says.
Run-holds :
    {s t : OrderStatus} {events : List OrderEvent} (r : Run s events t)
    → holds s + all_taken r ≡ holds t + all_given r
unfolding all_taken all_given
Run-holds stop = omega arith
Run-holds (step {s} {e = e} rule h r) = omega (arith, Run-holds r, balances s e rule h)

-- From its creation on, an order takes its stock at most once, gives it back at most as often as it
-- has taken it, and what it has taken and not given back is what its status says that it holds.
pub Run-once :
    {t : OrderStatus} {events : List OrderEvent} (r : Run created events t)
    → (all_taken r ≤ 1) × (all_given r ≤ all_taken r) × (all_taken r ≡ holds t + all_given r)
Run-once {t} r = (run_opens r, omega (arith, Run-holds r), omega (arith, Run-holds r))

-- What has been paid is never cancelled.
Run-settled :
    {s t : OrderStatus} {events : List OrderEvent}
    → Run s events t
    → is_settled s ≡ true
    → is_settled t ≡ true
Run-settled stop k = k
Run-settled (step {s} {e = e} rule h r) k = Run-settled r (stays_settled s e rule h k)

stays_cancelled :
    {s t : OrderStatus} {events : List OrderEvent} → Run s events t → s ≡ cancelled → t ≡ cancelled
stays_cancelled stop k = k
stays_cancelled (step {e = e} rule h r) k =
    absurd (closed e rule (ap (λ x. transitions x e) (sym k) ∙ h))

never_settled :
    {s t : OrderStatus} {events : List OrderEvent}
    → Run s events t
    → s ≡ cancelled
    → is_settled t ≡ true
    → ⊥
never_settled r c k = cc (sym k ∙ ap is_settled (stays_cancelled r c))

pays_first :
    {s t : OrderStatus} {events : List OrderEvent}
    → Run s events t
    → s ≡ confirmed
    → is_settled t ≡ true
    → (rest : List OrderEvent) × (events ≡ pay ∷ rest)
pays_first stop c k = cc (sym k ∙ ap is_settled c)
pays_first (step {e = e} {events = events} rule h r) c k =
    elim (leaves_confirmed e rule (ap (λ x. transitions x e) (sym c) ∙ h)) [
      | inl p ↦ (events, ap (λ x. x ∷ events) p)
      | inr p ↦ absurd (never_settled r p k)
    ]

Run-pays_first :
    {t : OrderStatus} {events : List OrderEvent}
    → Run created events t
    → is_settled t ≡ true
    → (rest : List OrderEvent) × (events ≡ confirm ∷ pay ∷ rest)
Run-pays_first r = go r refl
  where
    go :
        {s t : OrderStatus} {events : List OrderEvent}
        → Run s events t
        → s ≡ created
        → is_settled t ≡ true
        → (rest : List OrderEvent) × (events ≡ confirm ∷ pay ∷ rest)
    go stop c k = cc (sym k ∙ ap is_settled c)
    go (step {e = e} {events = events} rule h r) c k =
        elim (leaves_created e rule (ap (λ x. transitions x e) (sym c) ∙ h)) [
          | inl p ↦
              let (rest, q) = pays_first r p.1 k in
              (rest, ap (λ x. x ∷ events) p.0 ∙ ap (λ es. confirm ∷ es) q)
          | inr p ↦ absurd (never_settled r p k)
        ]

-- An order that was created and is paid, packed, shipped, delivered or completed was confirmed first
-- and paid next, and however its history goes on, it ends at one of these states: what has been paid
-- is never cancelled.
pub Run-paid :
    {t u : OrderStatus} {events later : List OrderEvent}
    → Run created events t
    → is_settled t ≡ true
    → Run t later u
    → ((rest : List OrderEvent) × (events ≡ confirm ∷ pay ∷ rest)) × (is_settled u ≡ true)
Run-paid before settled after = (Run-pays_first before settled, Run-settled after settled)
