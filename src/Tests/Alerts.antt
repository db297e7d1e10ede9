-- ===== src/Tests/Alerts.antt =====
-- The theorems on notifications and on the counts of orders, at the sample shop.
use vyapar_ai.Prelude.{ℕ, some, [], ◌∷◌, ◌≡◌, refl, ◌==◌, false, any, length}
use vyapar_ai.Common.Event.{DomainEvent, order_created}
use vyapar_ai.Common.Result.{ok}
use vyapar_ai.Common.Dict.{Dict, lookup}
use vyapar_ai.Models.Notification.{Notification}
use vyapar_ai.Models.Order.{OrderStatus, status_value}
use vyapar_ai.Models.Rows.{select}
use vyapar_ai.Database.Tables.{Tables}
use vyapar_ai.Database.Session.{query}
use vyapar_ai.Notification.Listener.{handle}
use vyapar_ai.Notification.Repository.{insert_notification}
use vyapar_ai.Notification.Delivery.{row, has_duplicate, handle-delivers}
use vyapar_ai.Notification.Once.{created_again, handle_again}
use vyapar_ai.Analytics.{order_counts_by_status}
use vyapar_ai.Analytics.Counts.{is_in, order_counts_by_status-exact}
use vyapar_ai.Tests.Sample.{quiet, shop, open_shop, open_shop-IsValid}

abbrev event : DomainEvent
event = order_created 7 21 3

abbrev told : Tables
told = insert_notification (row ⦃env = quiet⦄ event shop) shop

unused : any (λ (n : Notification). n.id == 100) shop.notifications ≡ false
unfolding any
unused = refl

news : has_duplicate event shop ≡ false
unfolding any
news = refl

handle-delivers_example : (handle ⦃env = quiet⦄ event shop).1 ≡ told
handle-delivers_example =
    handle-delivers ⦃env = quiet⦄ event shop open_shop-IsValid refl refl unused news

handle_again_example :
    (handle ⦃env = quiet⦄ (order_created 7 21 5) (handle ⦃env = quiet⦄ event shop).1).1
    ≡ (handle ⦃env = quiet⦄ event shop).1
handle_again_example =
    handle_again ⦃env = quiet⦄ quiet event (order_created 7 21 5) shop created_again
      open_shop-IsValid refl refl unused news

abbrev counted : Dict ℕ
counted =
    ("CREATED", 1)
    ∷ ("CONFIRMED", 0)
    ∷ ("PAID", 0)
    ∷ ("PACKED", 0)
    ∷ ("SHIPPED", 0)
    ∷ ("DELIVERED", 0)
    ∷ ("COMPLETED", 0)
    ∷ ("CANCELLED", 0)
    ∷ []

-- The sample shop has one order, which is created.
one_created : (order_counts_by_status 7 open_shop).0 ≡ ok counted
unfolding order_counts_by_status select query
one_created = refl

order_counts_by_status-exact_example :
    lookup (status_value OrderStatus.created) counted
    ≡ some (length (select (is_in 7 OrderStatus.created) shop.orders))
order_counts_by_status-exact_example =
    order_counts_by_status-exact 7 open_shop OrderStatus.created one_created
