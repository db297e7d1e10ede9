-- ===== src/Database/Ends.antt =====
-- How a call ends: one condition on what it returns, one on what it raises, and a rule for each way
-- in which the services put calls together.
use mathlib.Core.Path.{subst}
use vyapar_ai.Prelude.{
  ◌+◌, ◌≡◌, refl, Bool, true, false, Option, none, some, String, if◌then◌else◌, arith,
}
use vyapar_ai.Common.Error.{Error, is_integrity, conflict_error}
use vyapar_ai.Common.Result.{Result, ok, err}
use vyapar_ai.Database.Tables.{Tables, admitted}
use vyapar_ai.Database.Session.{
  Env, Session, Exec, pure, raise, ◌>>=◌, ◌>>◌, catch, rollback, or_rollback, or_conflict, query,
  or_raise, or_else, raise_if, modify, sent, flush, commit,
}

abbrev pub At :
    {A : Type 0} → (A → Session → Type 0) → (Error → Session → Type 0) → Result A × Session → Type 0
At Q E (ok a, t) = Q a t
At Q E (err e, t) = E e t

-- From `s`, the call `m` ends in `Q` if it returns and in `E` if it raises.
pub record Ends {A : Type 0} (Q : A → Session → Type 0) (E : Error → Session → Type 0) (m : Exec A)
    (s : Session) : Type 0 where
  pub at : At Q E (m s)

-- Nothing of what follows `s` has been committed or published.
abbrev pub Held : Session → Session → Type 0
Held s t = (t.committed ≡ s.committed) × (t.published ≡ s.published)

-- Nothing of a call has reached the tables or the bus.
abbrev pub Unchanged : Session → Session → Type 0
Unchanged s t = (t.committed ≡ s.committed) × (t.work ≡ s.committed) × (t.published ≡ s.published)

module _ {A : Type 0} where
  pub ok_injective : {c d : A} → ok c ≡ ok d → c ≡ d
  ok_injective p = cc p

  err_injective : {c d : Error} → ◌≡◌ {A = Result A} (err c) (err d) → c ≡ d
  err_injective p = cc p

module _ {A : Type 0} (Q : A → Session → Type 0) (E : Error → Session → Type 0) where
  At-ok : (x : Result A × Session) → At Q E x → {a : A} → x.0 ≡ ok a → Q a x.1
  At-ok (ok b, t) h e = subst (λ c. Q c t) (ok_injective e) h
  At-ok (err b, t) h e = cc

  At-err : (x : Result A × Session) → At Q E x → {e : Error} → x.0 ≡ err e → E e x.1
  At-err (ok b, t) h e = cc
  At-err (err b, t) h e = subst (λ c. E c t) (err_injective e) h

module _ {A : Type 0} {Q : A → Session → Type 0} {E : Error → Session → Type 0} {m : Exec A}
    {s : Session} where
  -- A call that has returned, and one that has raised.
  pub Ends-ok : Ends Q E m s → {a : A} → (m s).0 ≡ ok a → Q a (m s).1
  Ends-ok h = At-ok Q E (m s) h.at

  pub Ends-err : Ends Q E m s → {e : Error} → (m s).0 ≡ err e → E e (m s).1
  Ends-err h = At-err Q E (m s) h.at

module _ {A : Type 0} {Q : A → Session → Type 0} {E : Error → Session → Type 0} where
  pub pure-Ends : (a : A) {s : Session} → Q a s → Ends Q E (pure a) s
  unfolding pure
  pure-Ends a h = record { at = h }

  pub raise-Ends : (e : Error) {s : Session} → E e s → Ends Q E (raise e) s
  unfolding raise
  raise-Ends e h = record { at = h }

  pub query-Ends :
      (f : Tables → Result A) {s : Session}
      → ((e : Error) → f s.work ≡ err e → E e s)
      → ((a : A) → f s.work ≡ ok a → Q a s)
      → Ends Q E (query f) s
  unfolding query
  query-Ends f {s = s} h k = record { at = go (f s.work) refl }
    where
      go : (r : Result A) → f s.work ≡ r → At Q E (r, s)
      go (ok a) p = k a p
      go (err e) p = h e p

  pub or_raise-Ends :
      (o : Option A) (e : Error) {s : Session}
      → (o ≡ none → E e s)
      → ((a : A) → o ≡ some a → Q a s)
      → Ends Q E (or_raise o e) s
  unfolding or_raise
  or_raise-Ends none e h k = record { at = h refl }
  or_raise-Ends (some a) e h k = record { at = k a refl }

  pub or_else-Ends :
      (o : Option A) (m : Exec A) {s : Session}
      → ((a : A) → o ≡ some a → Q a s)
      → (o ≡ none → Ends Q E m s)
      → Ends Q E (or_else o m) s
  unfolding or_else
  or_else-Ends none m h k = k refl
  or_else-Ends (some a) m h k = pure-Ends a (h a refl)

  pub if-Ends :
      (b : Bool) {m n : Exec A} {s : Session}
      → (b ≡ true → Ends Q E m s)
      → (b ≡ false → Ends Q E n s)
      → Ends Q E (if b then m else n) s
  if-Ends true h k = h refl
  if-Ends false h k = k refl

module _ {A B : Type 0} (P : A → Session → Type 0) (Q : B → Session → Type 0)
    (E : Error → Session → Type 0) where
  bind-At :
      (x : Result A × Session) (f : A → Exec B)
      → At P E x
      → ((a : A) (t : Session) → P a t → At Q E (f a t))
      → At Q E (let (r, t) = x in elim r [ ok a ↦ f a t | err e ↦ (err e, t) ])
  bind-At (ok a, t) f h k = k a t h
  bind-At (err e, t) f h k = h

module _ {A B : Type 0} {P : A → Session → Type 0} {Q : B → Session → Type 0}
    {E : Error → Session → Type 0} where
  pub bind-Ends :
      (m : Exec A) (f : A → Exec B) {s : Session}
      → Ends P E m s
      → ((a : A) (t : Session) → P a t → Ends Q E (f a) t)
      → Ends Q E (m >>= f) s
  unfolding ◌>>=◌
  bind-Ends m f {s = s} h k = record { at = bind-At P Q E (m s) f h.at (λ a t p. (k a t p).at) }

module _ {A : Type 0} (Q : A → Session → Type 0) (D E : Error → Session → Type 0) where
  catch-At :
      (x : Result A × Session) (h : Error → Exec A)
      → At Q D x
      → ((e : Error) (t : Session) → D e t → At Q E (h e t))
      → At Q E (let (r, t) = x in elim r [ ok a ↦ (ok a, t) | err e ↦ h e t ])
  catch-At (ok a, t) h p k = p
  catch-At (err e, t) h p k = k e t p

module _ {A : Type 0} {Q : A → Session → Type 0} {D E : Error → Session → Type 0} where
  pub catch-Ends :
      (m : Exec A) (h : Error → Exec A) {s : Session}
      → Ends Q D m s
      → ((e : Error) (t : Session) → D e t → Ends Q E (h e) t)
      → Ends Q E (catch m h) s
  unfolding catch
  catch-Ends m h {s = s} p k = record { at = catch-At Q D E (m s) h p.at (λ e t d. (k e t d).at) }

  pub weaken-Ends :
      {m : Exec A} {s : Session}
      → Ends Q D m s
      → ((e : Error) (t : Session) → D e t → E e t)
      → Ends Q E m s
  weaken-Ends {m = m} {s = s} p k = record { at = go (m s) p.at }
    where
      go : (x : Result A × Session) → At Q D x → At Q E x
      go (ok a, t) h = h
      go (err e, t) h = k e t h

module _ {A : Type 0} {P Q : A → Session → Type 0} {E : Error → Session → Type 0} where
  pub map-Ends :
      {m : Exec A} {s : Session}
      → Ends P E m s
      → ((a : A) (t : Session) → P a t → Q a t)
      → Ends Q E m s
  map-Ends {m = m} {s = s} p k = record { at = go (m s) p.at }
    where
      go : (x : Result A × Session) → At P E x → At Q E x
      go (ok a, t) h = k a t h
      go (err e, t) h = h

module _ {A : Type 0} {Q : A → Session → Type 0} {E : Error → Session → Type 0} where
  -- What a transaction that only stages its writes raises, it takes back.
  pub or_rollback-Ends :
      (r : Session) (m : Exec A) {s : Session}
      → Ends Q (λ e t. Held r t) m s
      → ((e : Error) (t : Session) → Unchanged r t → E e t)
      → Ends Q E (or_rollback m) s
  unfolding or_rollback ◌>>=◌
  or_rollback-Ends r m p k =
      catch-Ends m (λ e. rollback >> raise e) p
        λ e t h. record { at = k e (record t { work = t.committed }) (h.0, h.0, h.1) }

  pub or_conflict-Ends :
      (r : Session) (message : String) (m : Exec A) {s : Session}
      → Ends Q (λ e t. Held r t) m s
      → ((e : Error) (t : Session) → Unchanged r t → E e t)
      → Ends Q E (or_conflict message m) s
  unfolding or_conflict ◌>>=◌
  or_conflict-Ends r message m p k =
      catch-Ends m (λ e. rollback >> raise (if is_integrity e then conflict_error message else e)) p
        λ e t h. record {
          at =
              k (if is_integrity e then conflict_error message else e)
                (record t { work = t.committed }) (h.0, h.0, h.1);
        }

module _ {Q : Unit {0} → Session → Type 0} {E : Error → Session → Type 0} where
  pub raise_if-Ends :
      (c : Bool) (e : Error) {s : Session}
      → (c ≡ true → E e s)
      → (c ≡ false → Q tt s)
      → Ends Q E (raise_if c e) s
  unfolding raise_if
  raise_if-Ends true e h k = record { at = h refl }
  raise_if-Ends false e h k = record { at = k refl }

  pub modify-Ends :
      (f : Tables → Tables) {s : Session}
      → Q tt (record s { work = f s.work })
      → Ends Q E (modify f) s
  unfolding modify
  modify-Ends f h = record { at = h }

  pub rollback-Ends : {s : Session} → Q tt (record s { work = s.committed }) → Ends Q E rollback s
  unfolding rollback
  rollback-Ends h = record { at = h }

sent-At :
    (Q : Unit {0} → Session → Type 0) (E : Error → Session → Type 0) (o : Option Error)
    (t u : Session)
    → ((e : Error) → E e u)
    → Q tt t
    → At Q E (elim o [ none ↦ (ok tt, t) | some e ↦ (err e, u) ])
sent-At Q E none t u h k = k
sent-At Q E (some e) t u h k = h e

module _ ⦃env : Env⦄ where
  -- A write that is accepted leaves no constraint broken.
  pub sent-admitted : (s : Session) → sent s ≡ none → admitted s.work ≡ true
  unfolding sent
  sent-admitted s h = ground arith

module _ ⦃env : Env⦄ {Q : Unit {0} → Session → Type 0} {E : Error → Session → Type 0} where
  pub flush-Ends :
      {s : Session}
      → ((e : Error) → E e (record s { calls = s.calls + 1 }))
      → Q tt (record s { calls = s.calls + 1 })
      → Ends Q E flush s
  unfolding flush
  flush-Ends {s = s} h k = record { at = sent-At Q E (sent s) _ _ h k }

  pub commit-Ends :
      {s : Session}
      → ((e : Error) → E e (record s { calls = s.calls + 1 }))
      → Q tt (record s { calls = s.calls + 1; committed = s.work })
      → Ends Q E commit s
  unfolding commit
  commit-Ends {s = s} h k = record { at = sent-At Q E (sent s) _ _ h k }

module _ {A : Type 0} {m : Exec A} {s : Session} {a : A} {t : Session} where
  -- A call that cannot raise, and of which the result and the end are known.
  pub Ends-sure : Ends (λ b u. (b ≡ a) × (u ≡ t)) (λ e u. ⊥) m s → m s ≡ (ok a, t)
  Ends-sure h = go (m s) h.at
    where
      go : (x : Result A × Session) → At (λ b u. (b ≡ a) × (u ≡ t)) (λ e u. ⊥) x → x ≡ (ok a, t)
      go (ok b, u) k = λ i. (ok (k.0 i), k.1 i)
      go (err e, u) k = absurd k

module _ {A : Type 0} {P : Session → Type 0} {m : Exec A} {s : Session} where
  -- What holds however a call ends holds after it.
  pub Ends-end : Ends (λ a t. P t) (λ e t. P t) m s → P (m s).1
  Ends-end h = go (m s) h.at
    where
      go : (x : Result A × Session) → At (λ a t. P t) (λ e t. P t) x → P x.1
      go (ok a, t) k = k
      go (err e, t) k = k

accepted-At :
    (Q : Unit {0} → Session → Type 0) (E : Error → Session → Type 0) (o : Option Error)
    (t u : Session)
    → ((e : Error) → E e u)
    → (o ≡ none → Q tt t)
    → At Q E (elim o [ none ↦ (ok tt, t) | some e ↦ (err e, u) ])
accepted-At Q E none t u h k = k refl
accepted-At Q E (some e) t u h k = h e

module _ ⦃env : Env⦄ {Q : Unit {0} → Session → Type 0} {E : Error → Session → Type 0} where
  -- A commit that is accepted.
  pub commit_accepted-Ends :
      {s : Session}
      → ((e : Error) → E e (record s { calls = s.calls + 1 }))
      → (sent s ≡ none → Q tt (record s { calls = s.calls + 1; committed = s.work }))
      → Ends Q E commit s
  unfolding commit
  commit_accepted-Ends {s = s} h k = record { at = accepted-At Q E (sent s) _ _ h k }
