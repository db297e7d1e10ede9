-- ===== src/Dashboard.antt =====
-- app/dashboard/service.py: `DashboardService`.
use vyapar_ai.Prelude.{ℕ, String, List, map}
use vyapar_ai.Common.Decimal.{Decimal}
use vyapar_ai.Common.Dict.{Dict}
use vyapar_ai.Models.Order.{Order, status_value}
use vyapar_ai.Database.Session.{Exec, pure, ◌>>=◌}
use vyapar_ai.Order.Repository.{list}
use vyapar_ai.Notification.Repository.{count_unread}
use vyapar_ai.Analytics.Periods.{today, month, Zone}
use vyapar_ai.Analytics.{
  SalesSummary, TopProduct, LowStockItem, sales_summary, order_counts_by_status, low_stock_count,
  low_stock_items, top_products, limit,
}

pub record RecentOrder : Type 0 where
  pub id : ℕ
  pub status : String
  pub total : Decimal

pub record DashboardSummary : Type 0 where
  pub sales_today : SalesSummary
  pub sales_month : SalesSummary
  pub order_counts : Dict ℕ
  pub low_stock_count : ℕ
  pub low_stock_items : List LowStockItem
  pub top_products : List TopProduct
  pub recent_orders : List RecentOrder
  pub unread_notifications : ℕ

abbrev pub recent : Order → RecentOrder
recent o = record { id = o.id; status = status_value o.status; total = o.total_amt }

-- The two periods are resolved at the times `first` and `second`, of the two calls.
unfoldable pub summary : Zone → (ℕ → ℕ) → String → ℕ → ℕ → ℕ → Exec DashboardSummary
unfolding list sales_summary order_counts_by_status low_stock_count low_stock_items top_products
    limit count_unread
summary zone created_at currency business_id first second = do
  orders ← list business_id
  sales_today ← sales_summary zone created_at currency business_id today first
  sales_month ← sales_summary zone created_at currency business_id month second
  order_counts ← order_counts_by_status business_id
  low_count ← low_stock_count business_id
  low_items ← low_stock_items business_id 5
  products ← top_products business_id 5
  unread ← count_unread business_id
  pure (record {
    sales_today = sales_today;
    sales_month = sales_month;
    order_counts = order_counts;
    low_stock_count = low_count;
    low_stock_items = low_items;
    top_products = products;
    recent_orders = map recent (limit 5 orders);
    unread_notifications = unread;
  })
