-- ===== src/Invoice.antt =====
-- app/invoice/service.py: `InvoiceService`. The object storage, the renderer of app/invoice/pdf.py and
-- the calendar are parameters.
pub mod Repository
pub mod Numbers
pub mod GapFree
pub mod Effects
use Prim.Native.String.{◌++◌ as str_append}
use vyapar_ai.Prelude.{
  ℕ, String, Bool, true, false, not, Option, none, some, List, [], ◌∷◌, if◌then◌else◌,
}
use vyapar_ai.Common.Error.{Error, not_found_error, conflict_error, is_integrity}
use vyapar_ai.Common.Result.{Result, ok, err}
use vyapar_ai.Common.Decimal
use vyapar_ai.Common.Decimal.{Decimal}
use vyapar_ai.Common.Text.{decimal, pad_four}
use vyapar_ai.Common.Storage.{Bytes, ObjectStorage}
use vyapar_ai.Models.Customer.{Customer}
use vyapar_ai.Models.Business.{Business}
use vyapar_ai.Models.Order.{Order, OrderItem, OrderStatus, line_total}
use vyapar_ai.Models.Payment.{Payment, PaymentMethod, online, cod}
use vyapar_ai.Models.Invoice.{Invoice, InvoiceItem, issued}
use vyapar_ai.Database.Session.{
  Env, Exec, pure, raise, lift, or_raise, or_else, ◌>>=◌, ◌>>◌, raise_if, catch, modify, rollback,
  commit, now,
}
use vyapar_ai.Customer
use vyapar_ai.Business
use vyapar_ai.Order.Repository.{items as order_items, get as get_order_row}
use vyapar_ai.Payment.Repository.{get_successful_for_order}
use Repository.{get, list, get_by_order, items, set_invoice, add, add_item, next_sequence, refresh}

-- `order.status in INVOICEABLE_STATES`
unfoldable pub is_invoiceable : OrderStatus → Bool
is_invoiceable OrderStatus.paid = true
is_invoiceable OrderStatus.packed = true
is_invoiceable OrderStatus.shipped = true
is_invoiceable OrderStatus.delivered = true
is_invoiceable OrderStatus.completed = true
is_invoiceable _ = false

-- `f"INV-{now.year}-{seq:04d}"`
unfoldable pub number_for : ℕ → ℕ → String
unfolding decimal pad_four
number_for year seq = str_append "INV-" (str_append (decimal year) (str_append "-" (pad_four seq)))

-- `payment.method.value`
abbrev pub method_value : PaymentMethod → String
method_value online = "ONLINE"
method_value cod = "COD"

-- `payment.currency if payment is not None else self._default_currency`, and its like.
abbrev pub of_row : {A B : Type 0} → (A → B) → B → Option A → B
of_row f d none = d
of_row f d (some a) = f a

-- The key of the document in the storage.
unfoldable pub pdf_key : ℕ → ℕ → String
unfolding decimal
pdf_key business_id invoice_id = str_append "invoices/" (
    str_append (decimal business_id)
      (str_append "/" (str_append (decimal invoice_id) "/invoice.pdf")))

-- The snapshot that an invoice takes of the rows it was made from.
abbrev pub snapshot_of :
    String → Order → Option Customer → Option Business → Option Payment → ℕ → String → Invoice
snapshot_of default_currency order customer business payment time number = record {
  id = 0;
  business_id = order.business_id;
  order_id = order.id;
  invoice_number = number;
  status = issued;
  issued_at = time;
  currency = of_row (λ (p : Payment). p.currency) default_currency payment;
  subtotal_amt = Decimal.sub order.total_amt order.tax_amt;
  tax_amt = order.tax_amt;
  total_amt = order.total_amt;
  customer_name = of_row (λ (c : Customer). c.name) "" customer;
  customer_phone = of_row (λ (c : Customer). c.phone) "" customer;
  business_name = of_row (λ (b : Business). b.name) "" business;
  payment_method = of_row (λ (p : Payment). some (method_value p.method)) none payment;
  payment_reference = of_row (λ (p : Payment). p.provider_payment_id) none payment;
  payment_status = "PAID";
  pdf_storage_key = none;
  pdf_url = none;
}

-- The line of an invoice for a line of the order.
abbrev pub line_of : ℕ → ℕ → OrderItem → InvoiceItem
line_of business_id invoice_id item = record {
  id = 0;
  business_id = business_id;
  invoice_id = invoice_id;
  product_id = some item.product_id;
  product_name = item.product_name;
  unit_price = item.unit_price;
  quantity = item.quantity;
  line_total = line_total item;
}

abbrev pub with_pdf : Invoice → String → String → Invoice
with_pdf invoice key url = record invoice { pdf_storage_key = some key; pdf_url = some url }

unfoldable pub get_invoice : ℕ → ℕ → Exec Invoice
unfolding get
get_invoice business_id invoice_id = do
  found ← get business_id invoice_id
  or_raise found (not_found_error "invoice not found")

unfoldable pub list_invoices : ℕ → Exec (List Invoice)
unfolding list
list_invoices business_id = list business_id

-- What the insert of `_create_snapshot` ends with: a new row, or the row that won a race.
pub data Issued : Type 0 where
  new earlier : Invoice → Issued

-- `except IntegrityError` and `except Exception` of `_create_snapshot`
abbrev pub race_lost : ℕ → ℕ → Error → Exec Issued
race_lost business_id order_id e =
    rollback
    >> (if is_integrity e
        then (do
          existing ← get_by_order business_id order_id
          winner ← or_raise existing (conflict_error "invoice already exists for this order")
          pure (Issued.earlier winner))
        else raise e)

unfoldable pub hand_out : Issued → Exec Invoice
hand_out (Issued.earlier invoice) = pure invoice
hand_out (Issued.new invoice) = refresh invoice

module _ ⦃env : Env⦄ where
  -- `for item in order.items: self._invoice_items.add(...)`
  unfoldable pub add_lines : ℕ → ℕ → List OrderItem → Exec (Unit {0})
  unfolding add_item line_total
  add_lines business_id invoice_id [] = pure tt
  add_lines business_id invoice_id (item ∷ rest) = do
    add_item (line_of business_id invoice_id item)
    add_lines business_id invoice_id rest

  module _ (year_of : ℕ → ℕ) (default_currency : String) where
    -- The transaction of `_create_snapshot`.
    unfoldable pub write_snapshot :
        ℕ → Order → Option Customer → Option Business → Option Payment → ℕ → Exec Issued
    unfolding next_sequence add order_items add_lines commit number_for Decimal.sub
    write_snapshot business_id order customer business payment time = do
      seq ← next_sequence business_id (year_of time)
      let snapshot =
          snapshot_of default_currency order customer business payment time
            (number_for (year_of time) seq)
      invoice ← add (record snapshot { business_id = business_id })
      lines ← order_items order
      add_lines business_id invoice.id lines
      commit
      pure (Issued.new invoice)

    -- `_create_snapshot`
    unfoldable pub create_snapshot : ℕ → Order → Exec Invoice
    unfolding Customer.Repository.get Business.Repository.get get_successful_for_order
        write_snapshot hand_out get_by_order
    create_snapshot business_id order = do
      customer ← Customer.Repository.get business_id order.customer_id true
      business ← Business.Repository.get business_id
      payment ← get_successful_for_order business_id order.id
      time ← now
      made ←
          catch (write_snapshot business_id order customer business payment time)
            (race_lost business_id order.id)
      hand_out made

  module _ (storage : ObjectStorage) (render : Invoice → List InvoiceItem → Result Bytes) where
    -- `_ensure_pdf`; a failure leaves the invoice as it was issued.
    unfoldable pub ensure_pdf : Invoice → Exec Invoice
    unfolding items commit pdf_key
    ensure_pdf invoice =
        catch
          (do
            lines ← items invoice
            pdf_bytes ← lift (render invoice lines)
            let key = pdf_key invoice.business_id invoice.id
            url ← lift (storage.put key pdf_bytes "application/pdf")
            let changed = with_pdf invoice key url
            modify (set_invoice changed)
            commit
            pure changed)
          (λ e. rollback >> pure invoice)

    unfoldable pub generate : (ℕ → ℕ) → String → ℕ → ℕ → Exec Invoice
    unfolding get_order_row get_by_order create_snapshot ensure_pdf is_invoiceable or_else
    generate year_of default_currency business_id order_id = do
      found ← get_order_row business_id order_id
      order ← or_raise found (not_found_error "order not found")
      raise_if (not (is_invoiceable order.status))
          (conflict_error "order must be paid before an invoice can be issued")
      existing ← get_by_order business_id order_id
      or_else existing (do
        invoice ← create_snapshot year_of default_currency business_id order
        ensure_pdf invoice)

    -- `get_pdf` where the stored document is missing.
    unfoldable pub regenerate_pdf : ℕ → Invoice → Exec Bytes
    unfolding items commit pdf_key
    regenerate_pdf business_id invoice = do
      lines ← items invoice
      pdf_bytes ← lift (render invoice lines)
      let key = pdf_key business_id invoice.id
      url ← lift (storage.put key pdf_bytes "application/pdf")
      catch (do modify (set_invoice (with_pdf invoice key url)); commit) (λ e. rollback)
      pure pdf_bytes

    -- The document in the storage, if it is there.
    abbrev pub stored : Option String → Option Bytes
    stored none = none
    stored (some key) = elim (storage.get key) [ ok content ↦ some content | err e ↦ none ]

    unfoldable pub get_pdf : ℕ → ℕ → Exec Bytes
    unfolding get_invoice regenerate_pdf
    get_pdf business_id invoice_id = do
      invoice ← get_invoice business_id invoice_id
      elim (stored invoice.pdf_storage_key) [
        | some content ↦ pure content
        | none ↦ regenerate_pdf business_id invoice
      ]
