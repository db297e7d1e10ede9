-- ===== src/Database/Session.antt =====
-- The session: the committed tables, the tables as the open transaction sees them, and the events
-- that the process has handed to its bus. What the database chooses is a parameter, `Env`.
use vyapar_ai.Prelude.{ℕ, ◌+◌, Bool, Option, none, some, List, [], ◌∷◌, ◌++◌, ◌==◌, if◌then◌else◌}
use vyapar_ai.Common.Error.{
  Error, integrity_error, database_error, invalid_request_error, is_integrity, conflict_error,
}
use vyapar_ai.Common.Event.{DomainEvent}
use vyapar_ai.Common.Result.{Result, ok, err}
use vyapar_ai.Models.Rows.{select, first}
use vyapar_ai.Database.Tables.{Tables, admitted}
use vyapar_ai.Prelude.{String}

-- An exception of the database beyond the constraints that the models declare: a constraint that
-- another transaction or a foreign key breaks, or a failure of any other kind.
pub data Fault : Type 0 where
  integrity : Fault
  other : ℕ → Fault

-- PostgreSQL and the clock, by the number of the statement that is sent: the primary key that an
-- INSERT is given, how a write ends, and the time.
pub record Env : Type 0 where
  pub next_id : ℕ → ℕ
  pub outcome : ℕ → Option Fault
  pub now : ℕ → ℕ

pub record Session : Type 0 where
  pub committed : Tables
  pub work : Tables
  pub calls : ℕ
  pub published : List DomainEvent

-- A session on given tables, with no transaction open.
abbrev pub session_on : Tables → Session
session_on t = record { committed = t; work = t; calls = 0; published = [] }

abbrev pub fault_error : Fault → Error
fault_error integrity = integrity_error
fault_error (other n) = database_error n

-- What was written before a raise stays written, so the state comes back beside the error too.
abbrev pub Exec : Type 0 → Type 0
Exec A = Session → Result A × Session

module _ {A : Type 0} where
  unfoldable pub pure : A → Exec A
  pure a s = (ok a, s)

  unfoldable pub raise : Error → Exec A
  raise e s = (err e, s)

  unfoldable pub lift : Result A → Exec A
  lift r s = (r, s)

  -- A SELECT reads the tables as the transaction sees them.
  unfoldable pub query : (Tables → Result A) → Exec A
  query f s = (f s.work, s)

  unfoldable pub or_raise : Option A → Error → Exec A
  unfolding pure raise
  or_raise none e = raise e
  or_raise (some a) e = pure a

-- `if row is not None: return row`, and what follows it
unfoldable pub or_else : {A : Type 0} → Option A → Exec A → Exec A
unfolding pure
or_else none m = m
or_else (some a) m = pure a

-- `try: m` with a handler for every exception
unfoldable pub catch : {A : Type 0} → Exec A → (Error → Exec A) → Exec A
catch m h s = let (r, t) = m s in elim r [ ok a ↦ (ok a, t) | err e ↦ h e t ]

unfoldable pub raise_if : Bool → Error → Exec (Unit {0})
raise_if c e s = (if c then err e else ok tt, s)

-- Assignments to attributes of loaded rows, and `session.add`.
unfoldable pub modify : (Tables → Tables) → Exec (Unit {0})
modify f s = (ok tt, record s { work = f s.work })

-- `session.rollback()`
unfoldable pub rollback : Exec (Unit {0})
rollback s = (ok tt, record s { work = s.committed })

-- `events.publish(event)`
unfoldable pub publish : DomainEvent → Exec (Unit {0})
publish e s = (ok tt, record s { published = s.published ++ e ∷ [] })

infixl 5 ◌>>=◌ ◌>>◌
-- To open `◌>>=◌` is to open all of these.
unfoldable pub ◌>>=◌ : {A B : Type 0} → Exec A → (A → Exec B) → Exec B
unfolding pure raise lift query or_raise catch raise_if modify rollback publish
◌>>=◌ m f s = let (r, t) = m s in elim r [ ok a ↦ f a t | err e ↦ (err e, t) ]

abbrev pub ◌>>◌ : {A B : Type 0} → Exec A → Exec B → Exec B
m >> k = m >>= λ _. k

-- `except Exception: session.rollback(); raise`
unfoldable pub or_rollback : {A : Type 0} → Exec A → Exec A
or_rollback m = catch m (λ e. rollback >> raise e)

-- The same, with `except IntegrityError: session.rollback(); raise ConflictError(message)` above it
unfoldable pub or_conflict : {A : Type 0} → String → Exec A → Exec A
or_conflict message m =
    catch m (λ e. rollback >> raise (if is_integrity e then conflict_error message else e))

-- `session.refresh(row)`
unfoldable pub reload : {A : Type 0} → (A → ℕ) → (Tables → List A) → A → Exec A
unfolding or_raise
reload key table row s =
    or_raise (first (select (λ r. key r == key row) (table s.work))) invalid_request_error s

module _ ⦃env : Env⦄ where
  -- How the next write ends.
  unfoldable pub sent : Session → Option Error
  unfolding admitted
  sent s = elim (env.outcome s.calls) [
    | none ↦ if admitted s.work then none else some integrity_error
    | some f ↦ some (fault_error f)
  ]

  -- `session.flush()`
  unfoldable pub flush : Exec (Unit {0})
  flush s =
      let t = record s { calls = s.calls + 1 } in
      elim (sent s) [ none ↦ (ok tt, t) | some e ↦ (err e, t) ]

  -- `session.commit()`; a COMMIT that raises has not committed.
  unfoldable pub commit : Exec (Unit {0})
  commit s =
      let t = record s { calls = s.calls + 1 } in
      elim (sent s) [ none ↦ (ok tt, record t { committed = s.work }) | some e ↦ (err e, t) ]

  -- The primary key that the next INSERT is given.
  unfoldable pub fresh : Exec ℕ
  fresh s = (ok (env.next_id s.calls), s)

  -- `datetime.now(UTC)`
  unfoldable pub now : Exec ℕ
  now s = (ok (env.now s.calls), s)
