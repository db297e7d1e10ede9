-- ===== src/Models/Invoice.antt =====
-- app/invoice/models.py: invoices, their lines and the counters of their numbers.
use vyapar_ai.Prelude.{ℕ, String, Bool, not, ◌&&◌, Option, List, all, ◌==◌, str_eq}
use vyapar_ai.Prelude.Int.{ℤ, pos, ltb_ℤ}
use vyapar_ai.Common.Decimal
use vyapar_ai.Common.Decimal.{Decimal, from_int}
use vyapar_ai.Models.Rows.{unique, unique_key}

pub data InvoiceStatus : Type 0 where
  issued : InvoiceStatus

pub record Invoice : Type 0 where
  pub id : ℕ
  pub business_id : ℕ
  pub order_id : ℕ
  pub invoice_number : String
  pub status : InvoiceStatus
  pub issued_at : ℕ
  pub currency : String
  pub subtotal_amt : Decimal
  pub tax_amt : Decimal
  pub total_amt : Decimal
  pub customer_name : String
  pub customer_phone : String
  pub business_name : String
  pub payment_method : Option String
  pub payment_reference : Option String
  pub payment_status : String
  pub pdf_storage_key : Option String
  pub pdf_url : Option String

pub record InvoiceItem : Type 0 where
  pub id : ℕ
  pub business_id : ℕ
  pub invoice_id : ℕ
  pub product_id : Option ℕ
  pub product_name : String
  pub unit_price : Decimal
  pub quantity : ℤ
  pub line_total : Decimal

pub record InvoiceCounter : Type 0 where
  pub business_id : ℕ
  pub year : ℕ
  pub next_seq : ℕ

-- `uq_invoice_order`, `uq_invoice_business_number`
abbrev pub same_order : Invoice → Invoice → Bool
same_order i j = i.order_id == j.order_id

abbrev pub same_number : Invoice → Invoice → Bool
same_number i j = i.business_id == j.business_id && str_eq i.invoice_number j.invoice_number

-- The primary key and the constraints of `Invoice.__table_args__`.
unfoldable pub invoices_admitted : List Invoice → Bool
unfolding unique unique_key all Decimal.lt
invoices_admitted rows =
    unique_key (λ (i : Invoice). i.id) rows
    && unique same_order rows
    && unique same_number rows
    && all (λ (i : Invoice). not (Decimal.lt i.total_amt (from_int (pos 0)))) rows

-- The primary key and `ck_invoice_item_quantity_positive`.
unfoldable pub invoice_items_admitted : List InvoiceItem → Bool
unfolding unique_key all
invoice_items_admitted rows =
    unique_key (λ (i : InvoiceItem). i.id) rows
    && all (λ (i : InvoiceItem). ltb_ℤ (pos 0) i.quantity) rows

-- The primary key, of two columns.
unfoldable pub counters_admitted : List InvoiceCounter → Bool
unfolding unique
counters_admitted rows =
    unique (λ (c d : InvoiceCounter). c.business_id == d.business_id && c.year == d.year) rows
