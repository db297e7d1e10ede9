-- ===== src/Database/Leaves.antt =====
-- Calls that leave a part of the tables as it is, in what is committed and in what is pending.
use vyapar_ai.Prelude.{
  ℕ, ◌≡◌, refl, ◌∙◌, Bool, true, false, Option, none, some, String, List, if◌then◌else◌,
}
use vyapar_ai.Common.Error.{Error}
use vyapar_ai.Common.Event.{DomainEvent}
use vyapar_ai.Common.Result.{Result, ok, err}
use vyapar_ai.Database.Tables.{Tables}
use vyapar_ai.Database.Session.{
  Env, Session, Exec, pure, raise, lift, query, or_raise, or_else, catch, raise_if, modify,
  rollback, publish, ◌>>=◌, or_rollback, or_conflict, reload, sent, flush, commit, fresh, now,
}

module _ {V : Type 0} (view : Tables → V) where
  -- What is committed and what is pending look like `v`.
  abbrev pub Shows : V → Session → Type 0
  Shows v s = (view s.committed ≡ v) × (view s.work ≡ v)

  pub record Leaves {A : Type 0} (m : Exec A) : Type 0 where
    pub leaves : {v : V} (s : Session) → Shows v s → Shows v (m s).1

module _ {V : Type 0} {view : Tables → V} {A : Type 0} where
  pub pure-Leaves : (a : A) → Leaves view (pure a)
  unfolding pure
  pure-Leaves a = record { leaves = λ s h. h }

  pub raise-Leaves : (e : Error) → Leaves view (raise {A = A} e)
  unfolding raise
  raise-Leaves e = record { leaves = λ s h. h }

  pub lift-Leaves : (r : Result A) → Leaves view (lift r)
  unfolding lift
  lift-Leaves r = record { leaves = λ s h. h }

  pub query-Leaves : (f : Tables → Result A) → Leaves view (query f)
  unfolding query
  query-Leaves f = record { leaves = λ s h. h }

  pub or_raise-Leaves : (o : Option A) (e : Error) → Leaves view (or_raise o e)
  unfolding or_raise
  or_raise-Leaves none e = raise-Leaves e
  or_raise-Leaves (some a) e = pure-Leaves a

  pub reload-Leaves :
      (key : A → ℕ) (table : Tables → List A) (row : A) → Leaves view (reload key table row)
  unfolding reload
  reload-Leaves key table row = record { leaves = λ s h. (or_raise-Leaves _ _).leaves s h }

  pub if-Leaves :
      (b : Bool) {m n : Exec A} → Leaves view m → Leaves view n → Leaves view (if b then m else n)
  if-Leaves true h k = h
  if-Leaves false h k = k

  catch-Shows :
      {v : V} (x : Result A × Session) (f : Error → Exec A)
      → Shows view v x.1
      → ((e : Error) → Leaves view (f e))
      → Shows view v
          (let y : Result A × Session =
              (let (r, t) = x in elim r [ ok a ↦ (ok a, t) | err e ↦ f e t ]) in
            y).1
  catch-Shows (ok a, t) f h k = h
  catch-Shows (err e, t) f h k = (k e).leaves t h

  pub catch-Leaves :
      (m : Exec A) (f : Error → Exec A)
      → Leaves view m
      → ((e : Error) → Leaves view (f e))
      → Leaves view (catch m f)
  unfolding catch
  catch-Leaves m f h k = record { leaves = λ s v. catch-Shows (m s) f (h.leaves s v) k }

pub or_else-Leaves :
    {V : Type 0} {view : Tables → V} {A : Type 0} (o : Option A) (m : Exec A)
    → Leaves view m
    → Leaves view (or_else o m)
unfolding or_else
or_else-Leaves none m h = h
or_else-Leaves (some a) m h = pure-Leaves a

module _ {V : Type 0} {view : Tables → V} where
  pub raise_if-Leaves : (c : Bool) (e : Error) → Leaves view (raise_if c e)
  unfolding raise_if
  raise_if-Leaves c e = record { leaves = λ s h. h }

  -- A write leaves what it does not change.
  pub modify-Leaves :
      (f : Tables → Tables) → ((t : Tables) → view (f t) ≡ view t) → Leaves view (modify f)
  unfolding modify
  modify-Leaves f h = record { leaves = λ s v. (v.0, h s.work ∙ v.1) }

  pub publish-Leaves : (e : DomainEvent) → Leaves view (publish e)
  unfolding publish
  publish-Leaves e = record { leaves = λ s h. h }

  pub rollback-Leaves : Leaves view rollback
  unfolding rollback
  rollback-Leaves = record { leaves = λ s v. (v.0, v.0) }

module _ {V : Type 0} {view : Tables → V} {A B : Type 0} where
  bind-Shows :
      {v : V} (x : Result A × Session) (f : A → Exec B)
      → Shows view v x.1
      → ((a : A) → Leaves view (f a))
      → Shows view v
          (let y : Result B × Session =
              (let (r, t) = x in elim r [ ok a ↦ f a t | err e ↦ (err e, t) ]) in
            y).1
  bind-Shows (ok a, t) f h k = (k a).leaves t h
  bind-Shows (err e, t) f h k = h

  pub bind-Leaves :
      (m : Exec A) (f : A → Exec B)
      → Leaves view m
      → ((a : A) → Leaves view (f a))
      → Leaves view (m >>= f)
  unfolding ◌>>=◌
  bind-Leaves m f h k = record { leaves = λ s v. bind-Shows (m s) f (h.leaves s v) k }

module _ {V : Type 0} {view : Tables → V} {A : Type 0} where
  pub or_rollback-Leaves : (m : Exec A) → Leaves view m → Leaves view (or_rollback m)
  unfolding or_rollback
  or_rollback-Leaves m h =
      catch-Leaves m _ h λ e. bind-Leaves rollback _ rollback-Leaves λ _. raise-Leaves e

  pub or_conflict-Leaves :
      (message : String) (m : Exec A) → Leaves view m → Leaves view (or_conflict message m)
  unfolding or_conflict
  or_conflict-Leaves message m h =
      catch-Leaves m _ h λ e. bind-Leaves rollback _ rollback-Leaves λ _. raise-Leaves _

sent-Shows :
    {V : Type 0} (view : Tables → V) {v : V} (o : Option Error) (a b : Session)
    → Shows view v a
    → Shows view v b
    → Shows view v
        (let r : Result (Unit {0}) × Session = elim o [ none ↦ (ok tt, a) | some e ↦ (err e, b) ] in
          r).1
sent-Shows view none a b h k = h
sent-Shows view (some e) a b h k = k

module _ ⦃env : Env⦄ {V : Type 0} {view : Tables → V} where
  pub flush-Leaves : Leaves view flush
  unfolding flush
  flush-Leaves = record { leaves = λ s v. sent-Shows view (sent s) _ _ v v }

  pub commit-Leaves : Leaves view commit
  unfolding commit
  commit-Leaves = record { leaves = λ s v. sent-Shows view (sent s) _ _ (v.1, v.1) v }

  pub fresh-Leaves : Leaves view fresh
  unfolding fresh
  fresh-Leaves = record { leaves = λ s h. h }

  pub now-Leaves : Leaves view now
  unfolding now
  now-Leaves = record { leaves = λ s h. h }

module _ {V : Type 0} {view : Tables → V} {A : Type 0} {m : Exec A} (h : Leaves view m) where
  -- From a session with no pending writes, the part is committed as it was.
  pub leaves_committed :
      (s : Session) → s.work ≡ s.committed → view (m s).1.committed ≡ view s.committed
  leaves_committed s clean = (h.leaves s (refl, λ i. view (clean i))).0

pub ruleset leaving = (
  pure-Leaves, raise-Leaves, lift-Leaves, query-Leaves, or_raise-Leaves, reload-Leaves, if-Leaves,
  catch-Leaves, raise_if-Leaves, modify-Leaves, rollback-Leaves, publish-Leaves, bind-Leaves,
  or_rollback-Leaves, or_conflict-Leaves, flush-Leaves, commit-Leaves, fresh-Leaves, now-Leaves,
  or_else-Leaves,
)
