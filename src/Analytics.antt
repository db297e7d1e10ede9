-- ===== src/Analytics.antt =====
-- app/analytics/service.py: `AnalyticsService`. The column `created_at` of TimestampMixin is no field of
-- the rows: the time at which a row was inserted is a parameter, by the row's id, and so is the time
-- zone. The sums of the columns have at most two places, so
-- `quantize` does not round them.
pub mod Counts
pub mod Periods
use vyapar_ai.Prelude.{
  ℕ, ◌+◌, zero, suc, String, Bool, true, false, not, ◌&&◌, Option, none, some, List, [], ◌∷◌, map,
  any, length, ◌==◌, leb, ltb, str_eq, if◌then◌else◌,
}
use vyapar_ai.Prelude.Int.{ℤ, pos, ◌+ℤ◌, leb_ℤ}
use vyapar_ai.Common.Result.{ok}
use vyapar_ai.Common.Dict.{Dict, set}
use vyapar_ai.Common.Decimal
use vyapar_ai.Common.Decimal.{Decimal, cents, from_int, scaled}
use vyapar_ai.Models.Inventory.{Inventory}
use vyapar_ai.Models.Order.{Order, OrderItem, OrderStatus, status_value}
use vyapar_ai.Models.Payment.{Payment, is_success}
use vyapar_ai.Models.Rows.{select}
use vyapar_ai.Database.Tables.{Tables}
use vyapar_ai.Database.Session.{Exec, query}
use Periods.{Period, period_value, in_range, Zone, resolve_period}

-- app/analytics/schemas.py
pub record SalesSummary : Type 0 where
  pub period : String
  pub order_count : ℕ
  pub revenue : Decimal
  pub currency : String

pub record TopProduct : Type 0 where
  pub product_name : String
  pub units_sold : ℤ
  pub revenue : Decimal

pub record LowStockItem : Type 0 where
  pub inventory_id : ℕ
  pub product_id : ℕ
  pub quantity : ℤ
  pub low_stock_threshold : ℤ

pub record PaymentTotals : Type 0 where
  pub period : String
  pub successful_count : ℕ
  pub total : Decimal
  pub currency : String

-- `order.status in SALES_STATES`
unfoldable pub is_sale : OrderStatus → Bool
is_sale OrderStatus.paid = true
is_sale OrderStatus.packed = true
is_sale OrderStatus.shipped = true
is_sale OrderStatus.delivered = true
is_sale OrderStatus.completed = true
is_sale _ = false

-- `_dec`
unfoldable pub dec : Decimal → Decimal
unfolding scaled
dec d = cents (scaled d 2)

-- `coalesce(sum(...), 0)`
unfoldable pub sum_amounts : {A : Type 0} → (A → Decimal) → List A → Decimal
unfolding Decimal.add
sum_amounts amount [] = from_int (pos 0)
sum_amounts amount (r ∷ rows) = Decimal.add (amount r) (sum_amounts amount rows)

-- The orders that count as sales.
abbrev pub sales : (ℕ → ℕ) → ℕ → Option ℕ × Option ℕ → Order → Bool
sales created_at business_id range o =
    o.business_id == business_id && is_sale o.status && in_range range (created_at o.id)

unfoldable pub sales_summary : Zone → (ℕ → ℕ) → String → ℕ → Period → ℕ → Exec SalesSummary
unfolding resolve_period sum_amounts dec is_sale
sales_summary zone created_at currency business_id period now = query (λ t.
    let range = resolve_period zone period now in
    let rows = select (sales created_at business_id range) t.orders in
    ok (record {
      period = period_value period;
      order_count = length rows;
      revenue = dec (sum_amounts (λ (o : Order). o.total_amt) rows);
      currency = currency;
    }))

unfoldable pub payment_totals : Zone → (ℕ → ℕ) → String → ℕ → Period → ℕ → Exec PaymentTotals
unfolding resolve_period sum_amounts dec
payment_totals zone created_at currency business_id period now = query (λ t.
    let range = resolve_period zone period now in
    let rows =
      select
        (λ (p : Payment).
          p.business_id == business_id && is_success p.status && in_range range (created_at p.id))
        t.payments in
    ok (record {
      period = period_value period;
      successful_count = length rows;
      total = dec (sum_amounts (λ (p : Payment). p.amount) rows);
      currency = currency;
    }))

-- The distinct values of a column.
unfoldable pub distinct : List String → List String
unfolding any
distinct [] = []
distinct (k ∷ ks) = let rest = distinct ks in if any (λ q. str_eq q k) rest then rest else k ∷ rest

-- How many rows have the value.
unfoldable pub occurrences : String → List String → ℕ
occurrences k [] = 0
occurrences k (q ∷ ks) = let rest = occurrences k ks in if str_eq q k then suc rest else rest

-- `select(column, func.count()).group_by(column)`
unfoldable pub group_count : List String → List (String × ℕ)
unfolding distinct occurrences
group_count ks = map (λ k. (k, occurrences k ks)) (distinct ks)

-- `{status.value: 0 for status in OrderStatus}`
abbrev pub no_counts : Dict ℕ
no_counts =
    (status_value OrderStatus.created, 0)
    ∷ (status_value OrderStatus.confirmed, 0)
    ∷ (status_value OrderStatus.paid, 0)
    ∷ (status_value OrderStatus.packed, 0)
    ∷ (status_value OrderStatus.shipped, 0)
    ∷ (status_value OrderStatus.delivered, 0)
    ∷ (status_value OrderStatus.completed, 0)
    ∷ (status_value OrderStatus.cancelled, 0)
    ∷ []

-- `for status, count in ...: counts[status.value] = int(count)`
unfoldable pub set_counts : Dict ℕ → List (String × ℕ) → Dict ℕ
unfolding set
set_counts counts [] = counts
set_counts counts (row ∷ rows) = set_counts (set row.0 row.1 counts) rows

-- The values of the status of a business's orders.
abbrev pub statuses : ℕ → Tables → List String
statuses business_id t =
    map (λ (o : Order). status_value o.status)
      (select (λ (o : Order). o.business_id == business_id) t.orders)

unfoldable pub order_counts_by_status : ℕ → Exec (Dict ℕ)
unfolding set_counts group_count
order_counts_by_status business_id =
    query (λ t. ok (set_counts no_counts (group_count (statuses business_id t))))

-- `Inventory.quantity <= Inventory.low_stock_threshold`
abbrev pub at_or_below : ℕ → Inventory → Bool
at_or_below business_id i = i.business_id == business_id && leb_ℤ i.quantity i.low_stock_threshold

unfoldable pub low_stock_count : ℕ → Exec ℕ
low_stock_count business_id =
    query (λ t. ok (length (select (at_or_below business_id) t.inventories)))

-- `order_by(Inventory.quantity)`
unfoldable pub by_quantity : Inventory → List Inventory → List Inventory
by_quantity i [] = i ∷ []
by_quantity i (j ∷ rows) =
    let later = j ∷ by_quantity i rows in
    if leb_ℤ i.quantity j.quantity then i ∷ j ∷ rows else later

unfoldable pub order_by_quantity : List Inventory → List Inventory
unfolding by_quantity
order_by_quantity [] = []
order_by_quantity (i ∷ rows) = by_quantity i (order_by_quantity rows)

-- `.limit(n)`
unfoldable pub limit : {A : Type 0} → ℕ → List A → List A
limit zero rows = []
limit (suc n) [] = []
limit (suc n) (r ∷ rows) = r ∷ limit n rows

abbrev low_item : Inventory → LowStockItem
low_item i = record {
  inventory_id = i.id;
  product_id = i.product_id;
  quantity = i.quantity;
  low_stock_threshold = i.low_stock_threshold;
}

unfoldable pub low_stock_items : ℕ → ℕ → Exec (List LowStockItem)
unfolding order_by_quantity limit
low_stock_items business_id n = query (λ t.
    ok
      (map low_item (limit n (order_by_quantity (select (at_or_below business_id) t.inventories)))))

-- The lines of the orders that count as sales: the join of `top_products`.
abbrev sold : ℕ → Tables → OrderItem → Bool
sold business_id t line =
    any (λ (o : Order). o.id == line.order_id && o.business_id == business_id && is_sale o.status)
      t.orders

-- `func.sum(OrderItem.quantity)`
unfoldable sum_units : List OrderItem → ℤ
sum_units [] = pos 0
sum_units (line ∷ lines) = line.quantity +ℤ sum_units lines

-- The row of a group.
unfoldable pub product_of : List OrderItem → String → TopProduct
unfolding sum_units sum_amounts dec Decimal.mul
product_of lines name =
    let group = select (λ (line : OrderItem). str_eq line.product_name name) lines in
    record {
      product_name = name;
      units_sold = sum_units group;
      revenue = dec (
          sum_amounts (λ (line : OrderItem). Decimal.mul line.unit_price (from_int line.quantity))
            group);
    }

-- `order_by(units.desc())`; which of two equals comes first is left open.
unfoldable by_units : TopProduct → List TopProduct → List TopProduct
by_units p [] = p ∷ []
by_units p (q ∷ rows) =
    let later = q ∷ by_units p rows in
    if leb_ℤ q.units_sold p.units_sold then p ∷ q ∷ rows else later

unfoldable order_by_units : List TopProduct → List TopProduct
unfolding by_units
order_by_units [] = []
order_by_units (p ∷ rows) = by_units p (order_by_units rows)

unfoldable pub top_products : ℕ → ℕ → Exec (List TopProduct)
unfolding distinct product_of order_by_units limit any is_sale
top_products business_id n = query (λ t.
    let lines = select (sold business_id t) t.order_items in
    let names = distinct (map (λ (line : OrderItem). line.product_name) lines) in
    ok (limit n (order_by_units (map (product_of lines) names))))
