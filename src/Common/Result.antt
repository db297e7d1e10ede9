-- ===== src/Common/Result.antt =====
-- A Python call that returns or raises.

use vyapar_ai.Prelude.{◌≡◌, refl, ◌⊎◌, inl, inr, Option, none, some}
use vyapar_ai.Common.Error.{Error}

pub data Result (A : Type 0) : Type 0 where
  ok : A → Result A
  err : Error → Result A

infixl 5 ◌>>=◌ ◌>>◌
abbrev pub ◌>>=◌ : {A B : Type 0} → Result A → (A → Result B) → Result B
ok a >>= f = f a
err e >>= f = err e

abbrev pub ◌>>◌ : {A B : Type 0} → Result A → Result B → Result B
m >> k = m >>= λ _. k

-- What a query for one row answers.
pub found_cases :
    {A : Type 0} (r : Result (Option A))
    → ((e : Error) × (r ≡ err e)) ⊎ ((r ≡ ok none) ⊎ ((a : A) × (r ≡ ok (some a))))
found_cases (err e) = inl (e, refl)
found_cases (ok none) = inr (inl refl)
found_cases (ok (some a)) = inr (inr (a, refl))
