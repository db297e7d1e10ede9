-- ===== src/Tests/Records.antt =====
-- The theorems on customers, products and the event bus, at small inputs.
use vyapar_ai.Prelude.{any, refl, ℕ, ◌+◌, [], ◌∷◌, ◌≡◌, none}
use vyapar_ai.Prelude.Int.{pos}
use vyapar_ai.Common.Decimal.{cents}
use vyapar_ai.Common.Patch.{unset, value}
use vyapar_ai.Customer.{create, update}
use vyapar_ai.Customer.Unique.{writes-Refuses}
use vyapar_ai.Database.Refuses.{Refuses}
use vyapar_ai.Catalog.{ProductCreate, ProductUpdate, create_product, update_product}
use vyapar_ai.Catalog.Unique.{payloads-Refuses}
use vyapar_ai.Common.Bus.{EventBus, Handler, publish, subscribe, publish-subscribe}
use vyapar_ai.Common.Error.{value_error}
use vyapar_ai.Common.Event.{order_created}
use vyapar_ai.Common.Result.{ok, err}
use vyapar_ai.Tests.Sample.{quiet, open_shop}

abbrev tea : ProductCreate
tea = record {
  name = "Tea";
  price = cents (pos 500);
  sku = "T1";
  category_id = none;
  description = none;
}

abbrev new_sku : ProductUpdate
new_sku = record {
  name = unset;
  price = unset;
  sku = value "R1";
  category_id = unset;
  description = unset;
}

writes-Refuses_example :
    Refuses (create ⦃env = quiet⦄ 7 "Ravi" "98") open_shop
    × Refuses (update ⦃env = quiet⦄ 7 4 (record { name = unset; phone = value "98" })) open_shop
unfolding any
writes-Refuses_example = writes-Refuses ⦃env = quiet⦄ open_shop 7 4 "98" refl "Ravi" unset

payloads-Refuses_example :
    Refuses (create_product ⦃env = quiet⦄ 7 (record tea { sku = "R1" })) open_shop
    × Refuses (update_product ⦃env = quiet⦄ 7 1 (record new_sku { sku = value "R1" })) open_shop
unfolding any
payloads-Refuses_example = payloads-Refuses ⦃env = quiet⦄ open_shop 7 1 "R1" refl tea new_sku

-- A handler that counts and one that counts and raises.
abbrev counting : Handler ℕ
counting event n = (ok tt, n + 1)

abbrev raising : Handler ℕ
raising event n = (err (value_error "no template"), n + 10)

abbrev failing_bus : EventBus ℕ
failing_bus = record { handlers = λ k. raising ∷ [] }

publish-subscribe_example :
    publish (order_created 7 21 3) (subscribe 1 counting failing_bus) 0
    ≡ (counting (order_created 7 21 3) (publish (order_created 7 21 3) failing_bus 0)).1
publish-subscribe_example = publish-subscribe (order_created 7 21 3) counting failing_bus 0
