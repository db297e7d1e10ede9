-- ===== src/Database/Refuses.antt =====
-- Calls that raise before they write: the session is left exactly as it was.
use vyapar_ai.Prelude.{
  ◌≡◌, refl, sym, ap, ◌∙◌, Bool, true, false, Option, none, some, List, [], ◌∷◌, any, is_some,
  arith,
}
use mathlib.Core.Bool.{true≢false}
use mathlib.Core.Path.{subst}
use vyapar_ai.Common.Error.{Error}
use vyapar_ai.Common.Result.{Result, ok, err}
use vyapar_ai.Models.Rows.{select, first}
use vyapar_ai.Database.Tables.{Tables}
use vyapar_ai.Database.Ends.{ok_injective}
use vyapar_ai.Database.Session.{Session, Exec, pure, raise, query, or_raise, raise_if, ◌>>=◌}

-- The call raises, and neither what is committed, nor what is pending, nor the events, nor the number
-- of writes sent has changed.
abbrev pub Refuses : {A : Type 0} → Exec A → Session → Type 0
Refuses m s = (e : Error) × (m s ≡ (err e, s))

-- The call reads.
pub record Reads {A : Type 0} (m : Exec A) : Type 0 where
  pub reads : (s : Session) → (m s).1 ≡ s

module _ {A : Type 0} where
  pub pure-Reads : (a : A) → Reads (pure a)
  unfolding pure
  pure-Reads a = record { reads = λ s. refl }

  pub query-Reads : (f : Tables → Result A) → Reads (query f)
  unfolding query
  query-Reads f = record { reads = λ s. refl }

  pub or_raise-Reads : (o : Option A) (e : Error) → Reads (or_raise o e)
  unfolding or_raise pure raise
  or_raise-Reads none e = record { reads = λ s. refl }
  or_raise-Reads (some a) e = record { reads = λ s. refl }

module _ {A B : Type 0} where
  pub bind-Reads :
      (m : Exec A) (f : A → Exec B) → Reads m → ((a : A) → Reads (f a)) → Reads (m >>= f)
  unfolding ◌>>=◌
  bind-Reads m f h k = record { reads = λ s. go (m s) ∙ h.reads s }
    where
      go :
          (x : Result A × Session)
          → (let y : Result B × Session =
                (let (r, t) = x in elim r [ ok a ↦ f a t | err e ↦ (err e, t) ]) in
              y).1
            ≡ x.1
      go (ok a, t) = (k a).reads t
      go (err e, t) = refl

  -- What follows a call that reads decides.
  pub after_read :
      (m : Exec A) (f : A → Exec B) (s : Session)
      → Reads m
      → ((a : A) → (m s).0 ≡ ok a → Refuses (f a) s)
      → Refuses (m >>= f) s
  unfolding ◌>>=◌
  after_read m f s h k = go (m s) (h.reads s) k
    where
      go :
          (x : Result A × Session)
          → x.1 ≡ s
          → ((a : A) → x.0 ≡ ok a → Refuses (f a) s)
          → (e : Error) × ((let y : Result B × Session =
                  (let (r, t) = x in elim r [ ok a ↦ f a t | err e ↦ (err e, t) ]) in
                y)
              ≡ (err e, s))
      go (ok a, t) p k =
          let r : Refuses (f a) t = subst (λ u. Refuses (f a) u) (sym p) (k a refl) in
          (r.0, r.1 ∙ ap (λ u. (err r.0, u)) p)
      go (err e, t) p k = (e, ap (λ u. (err e, u)) p)

module _ {B : Type 0} where
  -- A guard that holds.
  pub refused_by :
      (c : Bool) (e : Error) (f : Unit {0} → Exec B) (s : Session)
      → (c ≡ false → Refuses (f tt) s)
      → Refuses (raise_if c e >>= f) s
  unfolding ◌>>=◌
  refused_by true e f s h = (e, refl)
  refused_by false e f s h = h refl

-- A row of the kind that a query looks for is found.
first-found :
    {A : Type 0} (q p : A → Bool) (rows : List A)
    → ((r : A) → q r ≡ true → p r ≡ true)
    → any q rows ≡ true
    → is_some (first (select p rows)) ≡ true
unfolding any select first
first-found q p [] imp h = absurd (true≢false (sym h))
first-found q p (r ∷ rows) imp h = ground (arith, imp r, first-found q p rows imp)

-- A guard on a query that finds such a row.
pub refused_by_found :
    {A B : Type 0} (q p : A → Bool) (rows : List A) (found : Bool) (e : Error)
    (f : Unit {0} → Exec B) (s : Session)
    → ((r : A) → q r ≡ true → p r ≡ true)
    → any q rows ≡ true
    → ◌≡◌ {A = Result Bool} (ok (is_some (first (select p rows)))) (ok found)
    → Refuses (raise_if found e >>= f) s
refused_by_found q p rows found e f s imp h k =
    refused_by found e f s
      λ free. absurd (true≢false (sym (first-found q p rows imp h) ∙ ok_injective k ∙ free))
