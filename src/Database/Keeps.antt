-- ===== src/Database/Keeps.antt =====
-- Calls after which the committed tables break no constraint that the models declare.
use vyapar_ai.Prelude.{
  ℕ, ◌≡◌, refl, Bool, true, false, Option, none, some, String, List, if◌then◌else◌,
}
use vyapar_ai.Common.Error.{Error}
use vyapar_ai.Common.Event.{DomainEvent}
use vyapar_ai.Common.Result.{Result, ok, err}
use vyapar_ai.Database.Tables.{Tables, admitted}
use vyapar_ai.Database.Session.{
  Env, Session, Exec, pure, raise, lift, query, or_raise, or_else, catch, raise_if, modify,
  rollback, publish, ◌>>=◌, or_rollback, or_conflict, reload, sent, flush, commit, fresh, now,
}
use vyapar_ai.Database.Ends.{sent-admitted}

-- The committed tables satisfy every constraint of `__table_args__` and every primary key.
abbrev pub IsValid : Session → Type 0
IsValid s = admitted s.committed ≡ true

pub record Keeps {A : Type 0} (m : Exec A) : Type 0 where
  pub keeps : (s : Session) → IsValid s → IsValid (m s).1

module _ {A : Type 0} where
  pub pure-Keeps : (a : A) → Keeps (pure a)
  unfolding pure
  pure-Keeps a = record { keeps = λ s h. h }

  pub raise-Keeps : (e : Error) → Keeps (raise {A = A} e)
  unfolding raise
  raise-Keeps e = record { keeps = λ s h. h }

  pub lift-Keeps : (r : Result A) → Keeps (lift r)
  unfolding lift
  lift-Keeps r = record { keeps = λ s h. h }

  pub query-Keeps : (f : Tables → Result A) → Keeps (query f)
  unfolding query
  query-Keeps f = record { keeps = λ s h. h }

  pub or_raise-Keeps : (o : Option A) (e : Error) → Keeps (or_raise o e)
  unfolding or_raise
  or_raise-Keeps none e = raise-Keeps e
  or_raise-Keeps (some a) e = pure-Keeps a

  pub reload-Keeps :
      (key : A → ℕ) (table : Tables → List A) (row : A) → Keeps (reload key table row)
  unfolding reload
  reload-Keeps key table row = record { keeps = λ s h. (or_raise-Keeps _ _).keeps s h }

  pub if-Keeps : (b : Bool) {m n : Exec A} → Keeps m → Keeps n → Keeps (if b then m else n)
  if-Keeps true h k = h
  if-Keeps false h k = k

  pub catch-Keeps :
      (m : Exec A) (f : Error → Exec A) → Keeps m → ((e : Error) → Keeps (f e)) → Keeps (catch m f)
  unfolding catch
  catch-Keeps m f h k = record { keeps = λ s v. go (m s) (h.keeps s v) }
    where
      go :
          (x : Result A × Session)
          → IsValid x.1
          → IsValid
              (let y : Result A × Session =
                  (let (r, t) = x in elim r [ ok a ↦ (ok a, t) | err e ↦ f e t ]) in
                y).1
      go (ok a, t) v = v
      go (err e, t) v = (k e).keeps t v

pub or_else-Keeps : {A : Type 0} (o : Option A) (m : Exec A) → Keeps m → Keeps (or_else o m)
unfolding or_else
or_else-Keeps none m h = h
or_else-Keeps (some a) m h = pure-Keeps a

pub raise_if-Keeps : (c : Bool) (e : Error) → Keeps (raise_if c e)
unfolding raise_if
raise_if-Keeps c e = record { keeps = λ s h. h }

pub modify-Keeps : (f : Tables → Tables) → Keeps (modify f)
unfolding modify
modify-Keeps f = record { keeps = λ s h. h }

pub rollback-Keeps : Keeps rollback
unfolding rollback
rollback-Keeps = record { keeps = λ s h. h }

pub publish-Keeps : (e : DomainEvent) → Keeps (publish e)
unfolding publish
publish-Keeps e = record { keeps = λ s h. h }

module _ {A B : Type 0} where
  pub bind-Keeps :
      (m : Exec A) (f : A → Exec B) → Keeps m → ((a : A) → Keeps (f a)) → Keeps (m >>= f)
  unfolding ◌>>=◌
  bind-Keeps m f h k = record { keeps = λ s v. go (m s) (h.keeps s v) }
    where
      go :
          (x : Result A × Session)
          → IsValid x.1
          → IsValid
              (let y : Result B × Session =
                  (let (r, t) = x in elim r [ ok a ↦ f a t | err e ↦ (err e, t) ]) in
                y).1
      go (ok a, t) v = (k a).keeps t v
      go (err e, t) v = v

module _ {A : Type 0} where
  pub or_rollback-Keeps : (m : Exec A) → Keeps m → Keeps (or_rollback m)
  unfolding or_rollback
  or_rollback-Keeps m h =
      catch-Keeps m _ h λ e. bind-Keeps rollback _ rollback-Keeps λ _. raise-Keeps e

  pub or_conflict-Keeps : (message : String) (m : Exec A) → Keeps m → Keeps (or_conflict message m)
  unfolding or_conflict
  or_conflict-Keeps message m h =
      catch-Keeps m _ h λ e. bind-Keeps rollback _ rollback-Keeps λ _. raise-Keeps _

module _ ⦃env : Env⦄ where
  sent_keeps :
      {A : Type 0} (o : Option Error) (a b : Session) (x : A)
      → (o ≡ none → IsValid a)
      → IsValid b
      → IsValid
          (let r : Result A × Session = elim o [ none ↦ (ok x, a) | some e ↦ (err e, b) ] in r).1
  sent_keeps none a b x h k = h refl
  sent_keeps (some e) a b x h k = k

  pub flush-Keeps : Keeps flush
  unfolding flush
  flush-Keeps = record { keeps = λ s h. sent_keeps (sent s) _ _ tt (λ _. h) h }

  -- Only a commit changes the committed tables, and it takes none that break a constraint.
  pub commit-Keeps : Keeps commit
  unfolding commit
  commit-Keeps = record { keeps = λ s h. sent_keeps (sent s) _ _ tt (sent-admitted s) h }

  pub fresh-Keeps : Keeps fresh
  unfolding fresh
  fresh-Keeps = record { keeps = λ s h. h }

  pub now-Keeps : Keeps now
  unfolding now
  now-Keeps = record { keeps = λ s h. h }

pub ruleset keeping = (
  pure-Keeps, raise-Keeps, lift-Keeps, query-Keeps, or_raise-Keeps, reload-Keeps, if-Keeps,
  catch-Keeps, raise_if-Keeps, modify-Keeps, rollback-Keeps, publish-Keeps, bind-Keeps,
  or_rollback-Keeps, or_conflict-Keeps, flush-Keeps, commit-Keeps, fresh-Keeps, now-Keeps,
  or_else-Keeps,
)
