-- ===== src/Database/Tables.antt =====
-- All tables of the database, and the constraints that a flush checks.
use vyapar_ai.Prelude.{Bool, ◌&&◌, List, []}
use vyapar_ai.Models.Catalog.{Category, categories_admitted, Product, products_admitted}
use vyapar_ai.Models.Customer.{Customer, CustomerAddress, customers_admitted, addresses_admitted}
use vyapar_ai.Models.Inventory.{Inventory, StockMovement, inventories_admitted, movements_admitted}
use vyapar_ai.Models.Order.{Order, OrderItem, orders_admitted, order_items_admitted}
use vyapar_ai.Models.Payment.{Payment, payments_admitted}
use vyapar_ai.Models.Business.{Business, User, businesses_admitted, users_admitted}
use vyapar_ai.Models.Invoice.{
  Invoice, InvoiceItem, InvoiceCounter, invoices_admitted, invoice_items_admitted,
  counters_admitted,
}
use vyapar_ai.Models.Notification.{Notification, notifications_admitted}
use vyapar_ai.Models.Draft.{CatalogAiDraft, drafts_admitted}

pub record Tables : Type 0 where
  pub categories : List Category
  pub products : List Product
  pub customers : List Customer
  pub addresses : List CustomerAddress
  pub inventories : List Inventory
  pub movements : List StockMovement
  pub orders : List Order
  pub order_items : List OrderItem
  pub payments : List Payment
  pub businesses : List Business
  pub users : List User
  pub invoices : List Invoice
  pub invoice_items : List InvoiceItem
  pub invoice_counters : List InvoiceCounter
  pub notifications : List Notification
  pub drafts : List CatalogAiDraft

abbrev pub empty : Tables
empty = record {
  categories = [];
  products = [];
  customers = [];
  addresses = [];
  inventories = [];
  movements = [];
  orders = [];
  order_items = [];
  payments = [];
  businesses = [];
  users = [];
  invoices = [];
  invoice_items = [];
  invoice_counters = [];
  notifications = [];
  drafts = [];
}

-- The primary keys, unique indexes and CHECK constraints of the models.
unfoldable pub admitted : Tables → Bool
unfolding categories_admitted products_admitted customers_admitted addresses_admitted
    inventories_admitted movements_admitted orders_admitted order_items_admitted payments_admitted
    businesses_admitted users_admitted invoices_admitted invoice_items_admitted counters_admitted
    notifications_admitted drafts_admitted
admitted t =
    categories_admitted t.categories
    && products_admitted t.products
    && customers_admitted t.customers
    && addresses_admitted t.addresses
    && inventories_admitted t.inventories
    && movements_admitted t.movements
    && orders_admitted t.orders
    && order_items_admitted t.order_items
    && payments_admitted t.payments
    && businesses_admitted t.businesses
    && users_admitted t.users
    && invoices_admitted t.invoices
    && invoice_items_admitted t.invoice_items
    && counters_admitted t.invoice_counters
    && notifications_admitted t.notifications
    && drafts_admitted t.drafts
