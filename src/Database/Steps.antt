-- ===== src/Database/Steps.antt =====
-- The rules of Database/Ends for a step whose end is known: what follows it starts at the state that
-- the step leaves.
use mathlib.Core.Path.{subst}
use vyapar_ai.Prelude.{
  ℕ, ◌==◌, ◌+◌, ◌≡◌, refl, sym, Bool, true, false, Option, none, some, List, [], ◌∷◌, ◌++◌,
}
use vyapar_ai.Common.Error.{Error}
use vyapar_ai.Common.Event.{DomainEvent}
use vyapar_ai.Common.Result.{Result, ok, err}
use vyapar_ai.Models.Rows.{select, first}
use vyapar_ai.Database.Tables.{Tables}
use vyapar_ai.Database.Session.{
  Env, Session, Exec, pure, raise, ◌>>=◌, rollback, query, lift, or_raise, raise_if, modify,
  publish, sent, flush, commit, reload,
}
use vyapar_ai.Database.Ends.{At, Ends}

module _ {B : Type 0} {Q : B → Session → Type 0} {E : Error → Session → Type 0} where
  pub after_raise_if :
      (c : Bool) (e : Error) (f : Unit {0} → Exec B) {s : Session}
      → (c ≡ true → E e s)
      → (c ≡ false → Ends Q E (f tt) s)
      → Ends Q E (raise_if c e >>= f) s
  unfolding ◌>>=◌
  after_raise_if true e f h k = record { at = h refl }
  after_raise_if false e f h k = record { at = (k refl).at }

  pub after_modify :
      (g : Tables → Tables) (f : Unit {0} → Exec B) {s : Session}
      → Ends Q E (f tt) (record s { work = g s.work })
      → Ends Q E (modify g >>= f) s
  unfolding ◌>>=◌
  after_modify g f k = record { at = k.at }

  pub after_rollback :
      (f : Unit {0} → Exec B) {s : Session}
      → Ends Q E (f tt) (record s { work = s.committed })
      → Ends Q E (rollback >>= f) s
  unfolding ◌>>=◌
  after_rollback f k = record { at = k.at }

  pub after_publish :
      (e : DomainEvent) (f : Unit {0} → Exec B) {s : Session}
      → Ends Q E (f tt) (record s { published = s.published ++ e ∷ [] })
      → Ends Q E (publish e >>= f) s
  unfolding ◌>>=◌
  after_publish e f k = record { at = k.at }

module _ {A B : Type 0} {Q : B → Session → Type 0} {E : Error → Session → Type 0} where
  pub after_pure :
      (a : A) (f : A → Exec B) {s : Session} → Ends Q E (f a) s → Ends Q E (pure a >>= f) s
  unfolding ◌>>=◌
  after_pure a f k = record { at = k.at }

  pub after_raise : (e : Error) (f : A → Exec B) {s : Session} → E e s → Ends Q E (raise e >>= f) s
  unfolding ◌>>=◌
  after_raise e f h = record { at = h }

  lift_result :
      (r : Result A) (f : A → Exec B) (s : Session)
      → ((e : Error) → r ≡ err e → E e s)
      → ((a : A) → r ≡ ok a → Ends Q E (f a) s)
      → Ends Q E (lift r >>= f) s
  unfolding ◌>>=◌
  lift_result (ok a) f s h k = record { at = (k a refl).at }
  lift_result (err e) f s h k = record { at = h e refl }

  pub after_lift :
      (r : Result A) (f : A → Exec B) {s : Session}
      → ((e : Error) → r ≡ err e → E e s)
      → ((a : A) → r ≡ ok a → Ends Q E (f a) s)
      → Ends Q E (lift r >>= f) s
  after_lift r f {s = s} h k = lift_result r f s h k

  pub after_query :
      (g : Tables → Result A) (f : A → Exec B) {s : Session}
      → ((e : Error) → g s.work ≡ err e → E e s)
      → ((a : A) → g s.work ≡ ok a → Ends Q E (f a) s)
      → Ends Q E (query g >>= f) s
  unfolding ◌>>=◌
  after_query g f {s = s} h k = record { at = (lift_result (g s.work) f s h k).at }

  pub after_or_raise :
      (o : Option A) (e : Error) (f : A → Exec B) {s : Session}
      → (o ≡ none → E e s)
      → ((a : A) → o ≡ some a → Ends Q E (f a) s)
      → Ends Q E (or_raise o e >>= f) s
  unfolding ◌>>=◌
  after_or_raise none e f h k = record { at = h refl }
  after_or_raise (some a) e f h k = record { at = (k a refl).at }

module _ ⦃env : Env⦄ {B : Type 0} {Q : B → Session → Type 0} {E : Error → Session → Type 0} where
  sent_result :
      (o : Option Error) (t u : Session) (f : Unit {0} → Exec B)
      → ((e : Error) → o ≡ some e → E e u)
      → (o ≡ none → Ends Q E (f tt) t)
      → At Q E (
          let (r, v) =
            let x : Result (Unit {0}) × Session = elim o [
              | none ↦ (ok tt, t)
              | some e ↦ (err e, u)
            ] in
            x in
          elim r [ ok a ↦ f a v | err e ↦ (err e, v) ])
  sent_result none t u f h k = (k refl).at
  sent_result (some e) t u f h k = h e refl

  pub after_flush :
      (f : Unit {0} → Exec B) {s : Session}
      → ((e : Error) → sent s ≡ some e → E e (record s { calls = s.calls + 1 }))
      → (sent s ≡ none → Ends Q E (f tt) (record s { calls = s.calls + 1 }))
      → Ends Q E (flush >>= f) s
  unfolding ◌>>=◌ flush
  after_flush f {s = s} h k = record { at = sent_result (sent s) _ _ f h k }

  pub after_commit :
      (f : Unit {0} → Exec B) {s : Session}
      → ((e : Error) → sent s ≡ some e → E e (record s { calls = s.calls + 1 }))
      → (sent s ≡ none → Ends Q E (f tt) (record s { calls = s.calls + 1; committed = s.work }))
      → Ends Q E (commit >>= f) s
  unfolding ◌>>=◌ commit
  after_commit f {s = s} h k = record { at = sent_result (sent s) _ _ f h k }

module _ {A : Type 0} (key : A → ℕ) (table : Tables → List A) (row : A) {s : Session}
    (there : first (select (λ r. key r == key row) (table s.work)) ≡ some row) where
  -- A row that is in its table is read back as it is.
  reload_there : reload key table row s ≡ (ok row, s)
  unfolding reload
  reload_there = rw there

  pub reload-Ends :
      {Q : A → Session → Type 0} {E : Error → Session → Type 0}
      → Q row s
      → Ends Q E (reload key table row) s
  reload-Ends {Q} {E} h = record { at = subst (At Q E) (sym reload_there) h }

  pub after_reload :
      {B : Type 0} {Q : B → Session → Type 0} {E : Error → Session → Type 0} (f : A → Exec B)
      → Ends Q E (f row) s
      → Ends Q E (reload key table row >>= f) s
  unfolding ◌>>=◌
  after_reload {Q = Q} {E = E} f k = record {
    at =
        subst (λ x. At Q E (let (r, t) = x in elim r [ ok a ↦ f a t | err e ↦ (err e, t) ]))
          (sym reload_there) k.at;
  }

module _ {A B : Type 0} {Q : B → Session → Type 0} {E : Error → Session → Type 0} where
  -- A call that is known to return goes on from where it ends.
  pub after_known :
      (m : Exec A) (f : A → Exec B) {s : Session} {a : A} {t : Session}
      → m s ≡ (ok a, t)
      → Ends Q E (f a) t
      → Ends Q E (m >>= f) s
  unfolding ◌>>=◌
  after_known m f e k = record {
    at =
        subst (λ x. At Q E (let (r, t) = x in elim r [ ok a ↦ f a t | err e ↦ (err e, t) ])) (sym e)
          k.at;
  }

  find_result :
      (r : Result (Option A)) (e : Error) (f : A → Exec B) (s : Session)
      → ((e : Error) → E e s)
      → ((a : A) → r ≡ ok (some a) → Ends Q E (f a) s)
      → Ends Q E ((query (λ _. r) >>= λ o. or_raise o e) >>= f) s
  unfolding ◌>>=◌
  find_result (ok none) e f s h k = record { at = h e }
  find_result (ok (some a)) e f s h k = record { at = (k a refl).at }
  find_result (err d) e f s h k = record { at = h d }

  -- `found = query(); if found is None: raise e`
  pub after_find :
      (g : Tables → Result (Option A)) (e : Error) (f : A → Exec B) {s : Session}
      → ((e : Error) → E e s)
      → ((a : A) → g s.work ≡ ok (some a) → Ends Q E (f a) s)
      → Ends Q E ((query g >>= λ o. or_raise o e) >>= f) s
  unfolding ◌>>=◌
  after_find g e f {s = s} h k = record { at = (find_result (g s.work) e f s h k).at }

module _ {A B C : Type 0} (Q : C → Session → Type 0) (E : Error → Session → Type 0) where
  regroup :
      (x : Result A × Session) (f : A → Exec B) (g : B → Exec C)
      → At Q E (
          let (r, t) = x in
          elim r [
            | ok a ↦ (let (r, t) = f a t in elim r [ ok b ↦ g b t | err e ↦ (err e, t) ])
            | err e ↦ (err e, t)
          ])
      → At Q E (
          let (r, t) =
            (let (r, t) = x in
              let y : Result B × Session = elim r [ ok a ↦ f a t | err e ↦ (err e, t) ] in y) in
          elim r [ ok b ↦ g b t | err e ↦ (err e, t) ])
  regroup (ok a, t) f g h = h
  regroup (err e, t) f g h = h

module _ {A B C : Type 0} {Q : C → Session → Type 0} {E : Error → Session → Type 0} where
  -- A step that is itself a sequence of steps.
  pub after_steps :
      (m : Exec A) (f : A → Exec B) (g : B → Exec C) {s : Session}
      → Ends Q E (m >>= λ a. f a >>= g) s
      → Ends Q E ((m >>= f) >>= g) s
  unfolding ◌>>=◌
  after_steps m f g {s = s} h = record { at = regroup Q E (m s) f g h.at }

module _ {A : Type 0} where
  -- A row that a query finds is returned.
  pub find_known :
      (g : Tables → Result (Option A)) (e : Error) {s : Session} {a : A}
      → g s.work ≡ ok (some a)
      → (query g >>= λ o. or_raise o e) s ≡ (ok a, s)
  unfolding ◌>>=◌
  find_known g e h = rw h refl

module _ {A B : Type 0} where
  -- What is known of a call is known of a sequence that begins with it.
  pub bind_known :
      (m : Exec A) (f : A → Exec B) {s : Session} {a : A} {t : Session}
      → m s ≡ (ok a, t)
      → (m >>= f) s ≡ f a t
  unfolding ◌>>=◌
  bind_known m f {a = a} {t = t} h =
      subst
        (λ x.
          ◌≡◌ {A = Result B × Session}
            (let (r, u) = x in elim r [ ok b ↦ f b u | err e ↦ (err e, u) ]) (f a t))
        (sym h) refl
