-- ===== src/Common/Bus.antt =====
-- The class `EventBus` of app/common/events.py. A handler works on a state of its own choice and
-- returns or raises; the services record what they publish in the session, and this module has what
-- a publish then does. Handlers do not change the subscriptions.
use vyapar_ai.Prelude.{arith, ℕ, ◌≡◌, refl, true, List, [], ◌∷◌, ◌++◌, ◌==◌, if◌then◌else◌}
use vyapar_ai.Common.Event.{
  DomainEvent, low_stock, order_created, order_confirmed, order_cancelled, payment_succeeded,
  payment_failed,
}
use vyapar_ai.Common.Result.{Result}

-- `type(event)`
abbrev pub type_of : DomainEvent → ℕ
type_of (low_stock _) = 0
type_of (order_created _ _ _) = 1
type_of (order_confirmed _ _ _) = 2
type_of (order_cancelled _ _ _) = 3
type_of (payment_succeeded _ _ _) = 4
type_of (payment_failed _ _ _ _) = 5

-- What was written before a raise stays written.
abbrev pub Handler : Type 0 → Type 0
Handler S = DomainEvent → S → Result (Unit {0}) × S

pub record EventBus (S : Type 0) : Type 0 where
  pub handlers : ℕ → List (Handler S)

same : (n : ℕ) → (n == n) ≡ true
same n = ground arith

module _ {S : Type 0} where
  -- `self._handlers[event_type].append(handler)`
  unfoldable pub subscribe : ℕ → Handler S → EventBus S → EventBus S
  subscribe event_type handler bus = record {
    handlers = λ k. if k == event_type then bus.handlers k ++ handler ∷ [] else bus.handlers k;
  }

  -- `for handler in ...: try: handler(event) except Exception: ...`
  unfoldable pub dispatch : DomainEvent → List (Handler S) → S → S
  dispatch event [] s = s
  dispatch event (handler ∷ handlers) s = dispatch event handlers (handler event s).1

  unfoldable pub publish : DomainEvent → EventBus S → S → S
  unfolding dispatch
  publish event bus = dispatch event (bus.handlers (type_of event))

  unfoldable pub clear : EventBus S → EventBus S
  clear bus = record { handlers = λ k. [] }

  dispatch-append :
      (event : DomainEvent) (xs ys : List (Handler S)) (s : S)
      → dispatch event (xs ++ ys) s ≡ dispatch event ys (dispatch event xs s)
  unfolding dispatch
  dispatch-append event [] ys s = refl
  dispatch-append event (x ∷ xs) ys s = dispatch-append event xs ys (x event s).1

  -- A handler that is subscribed to the type of an event runs last when it is published, after all
  -- that were subscribed before, also when some of them have raised.
  pub publish-subscribe :
      (event : DomainEvent) (handler : Handler S) (bus : EventBus S) (s : S)
      → publish event (subscribe (type_of event) handler bus) s
        ≡ (handler event (publish event bus s)).1
  unfolding publish subscribe dispatch
  publish-subscribe event handler bus s =
      rw (same (type_of event))
        (dispatch-append event (bus.handlers (type_of event)) (handler ∷ []) s)
