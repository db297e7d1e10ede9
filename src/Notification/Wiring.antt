-- ===== src/Notification/Wiring.antt =====
-- `_wire_notifications` of app/main.py: the listener on the bus to which the services publish.
use vyapar_ai.Prelude.{◌≡◌, refl, ap, ◌∙◌, List, [], ◌∷◌}
use vyapar_ai.Common.Bus.{EventBus, publish, dispatch, subscribe}
use vyapar_ai.Common.Event.{
  DomainEvent, low_stock, order_created, order_confirmed, order_cancelled, payment_succeeded,
  payment_failed,
}
use vyapar_ai.Database.Tables.{Tables}
use vyapar_ai.Database.Session.{Env}
use vyapar_ai.Notification.Effects.{but_notifications, handle-but_notifications}
use vyapar_ai.Notification.Listener

module _ ⦃env : Env⦄ where
  -- `_wire_notifications` of app/main.py, on an empty bus.
  unfoldable pub wired : EventBus Tables
  unfolding Listener.register
  wired = Listener.register (record { handlers = λ k. [] })

  -- The committed tables when the events of a call have been published, in order.
  unfoldable pub notified : List DomainEvent → Tables → Tables
  unfolding publish wired
  notified [] t = t
  notified (event ∷ events) t = notified events (publish event wired t)

  publish-wired :
      (event : DomainEvent) (t : Tables) → publish event wired t ≡ (Listener.handle event t).1
  unfolding publish wired dispatch subscribe
  publish-wired (low_stock e) t = refl
  publish-wired (order_created b o c) t = refl
  publish-wired (order_confirmed b o c) t = refl
  publish-wired (order_cancelled b o c) t = refl
  publish-wired (payment_succeeded b o p) t = refl
  publish-wired (payment_failed b o p code) t = refl

  -- They change nothing but the notifications.
  pub notified-but_notifications :
      (events : List DomainEvent) (t : Tables)
      → but_notifications (notified events t) ≡ but_notifications t
  unfolding notified
  notified-but_notifications [] t = refl
  notified-but_notifications (event ∷ events) t =
      notified-but_notifications events _
      ∙ ap but_notifications (publish-wired event t)
      ∙ handle-but_notifications event t
