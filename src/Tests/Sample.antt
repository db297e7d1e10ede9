-- ===== src/Tests/Sample.antt =====
-- A small shop, and a database that never fails.
use vyapar_ai.Prelude.{refl, any, all, ◌+◌, false, none, some, [], ◌∷◌}
use vyapar_ai.Prelude.Int.{pos, ◌*ℤ◌}
use vyapar_ai.Common.Decimal.{cents}
use vyapar_ai.Models.Catalog.{Product}
use vyapar_ai.Models.Customer.{Customer}
use vyapar_ai.Models.Inventory.{Inventory}
use vyapar_ai.Models.Order.{Order, OrderItem, OrderStatus}
use vyapar_ai.Models.Payment.{Payment, PaymentStatus, online, cod}
use vyapar_ai.Models.Rows.{unique, unique_key}
use vyapar_ai.Database.Tables.{Tables, admitted}
use vyapar_ai.Database.Keeps.{IsValid}
use vyapar_ai.Inventory.Balance.{IsKeyed}
use vyapar_ai.Database.Session.{Env, Session, session_on}

abbrev pub quiet : Env
quiet = record { next_id = λ k. 100 + k; outcome = λ k. none; now = λ k. k }

abbrev pub soap : Product
soap = record {
  id = 1;
  business_id = 7;
  category_id = none;
  name = "Soap";
  description = none;
  price_amt = cents (pos 2550);
  sku = "S1";
  is_deleted = false;
}

abbrev pub rice : Product
rice = record soap { id = 2; name = "Rice"; price_amt = cents (pos 9999); sku = "R1" }

abbrev pub asha : Customer
asha = record { id = 3; business_id = 7; name = "Asha"; phone = "98"; is_deleted = false }

abbrev pub soap_stock : Inventory
soap_stock = record {
  id = 11;
  business_id = 7;
  product_id = 1;
  quantity = pos 10;
  low_stock_threshold = pos 4;
}

abbrev pub rice_stock : Inventory
rice_stock = record soap_stock { id = 12; product_id = 2; quantity = pos 5 }

abbrev pub order : Order
order = record {
  id = 21;
  business_id = 7;
  customer_id = 3;
  status = OrderStatus.created;
  tax_amt = cents (pos 0);
  total_amt = cents (pos 35397);
}

abbrev pub soap_line : OrderItem
soap_line = record {
  id = 31;
  business_id = 7;
  order_id = 21;
  product_id = 1;
  product_name = "Soap";
  unit_price = cents (pos 2550);
  quantity = pos 10;
}

abbrev pub rice_line : OrderItem
rice_line = record soap_line {
  id = 32;
  product_id = 2;
  product_name = "Rice";
  unit_price = cents (pos 9999);
  quantity = pos 1;
}

abbrev pub shop : Tables
shop = record {
  categories = [];
  products = soap ∷ rice ∷ [];
  customers = asha ∷ [];
  addresses = [];
  inventories = soap_stock ∷ rice_stock ∷ [];
  movements = [];
  orders = order ∷ [];
  order_items = soap_line ∷ rice_line ∷ [];
  payments = [];
  businesses = [];
  users = [];
  invoices = [];
  invoice_items = [];
  invoice_counters = [];
  notifications = [];
  drafts = [];
}

abbrev pub open_shop : Session
open_shop = session_on shop

-- The shop when the order is confirmed, with a payment of each method.
abbrev pub online_payment : Payment
online_payment = record {
  id = 41;
  business_id = 7;
  order_id = 21;
  method = online;
  amount = cents (pos 35397);
  currency = "INR";
  status = PaymentStatus.created;
  provider = "mock";
  provider_order_id = some "order_order-21";
  provider_payment_id = none;
  idempotency_key = some "k1";
  failure_code = none;
  failure_reason = none;
  verified_at = none;
}

abbrev pub cod_payment : Payment
cod_payment = record online_payment {
  id = 42;
  method = cod;
  provider = "cod";
  provider_order_id = none;
  idempotency_key = none;
}

abbrev pub awaiting : Tables
awaiting = record shop {
  inventories =
      record soap_stock { quantity = pos 0 } ∷ record rice_stock { quantity = pos 4 } ∷ [];
  orders = record order { status = OrderStatus.confirmed } ∷ [];
  payments = online_payment ∷ cod_payment ∷ [];
}

-- The shop when the order is paid.
abbrev pub paid_payment : Payment
paid_payment = record online_payment {
  status = PaymentStatus.success;
  provider_payment_id = some "pay_1";
  verified_at = some 0;
}

abbrev pub paid_shop : Tables
paid_shop = record awaiting {
  orders = record order { status = OrderStatus.paid } ∷ [];
  payments = paid_payment ∷ [];
}

pub shop-IsKeyed : IsKeyed shop
unfolding unique_key unique any
shop-IsKeyed = refl

pub awaiting-IsKeyed : IsKeyed awaiting
unfolding unique_key unique any
awaiting-IsKeyed = refl

pub paid_shop-IsKeyed : IsKeyed paid_shop
unfolding unique_key unique any
paid_shop-IsKeyed = refl

pub open_shop-IsValid : IsValid open_shop
unfolding admitted unique_key unique any all
open_shop-IsValid = refl

pub awaiting-IsValid : IsValid (session_on awaiting)
unfolding admitted unique_key unique any all ◌*ℤ◌
awaiting-IsValid = refl

pub paid_shop-IsValid : IsValid (session_on paid_shop)
unfolding admitted unique_key unique any all ◌*ℤ◌
paid_shop-IsValid = refl
