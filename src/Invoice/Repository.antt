-- ===== src/Invoice/Repository.antt =====
-- app/invoice/repository.py: the queries and writes on invoices and their counters.
use mathlib.Core.List.{reverse}
use vyapar_ai.Prelude.{ℕ, Bool, ◌&&◌, ◌+◌, Option, List, [], ◌∷◌, ◌++◌, ◌==◌, if◌then◌else◌}
use vyapar_ai.Common.Result.{ok}
use vyapar_ai.Models.Invoice.{Invoice, InvoiceItem, InvoiceCounter}
use vyapar_ai.Models.Rows.{select, one_or_none, order_by, assign}
use vyapar_ai.Database.Tables.{Tables}
use vyapar_ai.Database.Session.{Env, Exec, pure, query, modify, fresh, flush, reload, ◌>>=◌, ◌>>◌}

abbrev pub at_id : ℕ → ℕ → Invoice → Bool
at_id business_id invoice_id i = i.id == invoice_id && i.business_id == business_id

abbrev pub at_order : ℕ → ℕ → Invoice → Bool
at_order business_id order_id i = i.business_id == business_id && i.order_id == order_id

unfoldable pub get : ℕ → ℕ → Exec (Option Invoice)
get business_id invoice_id =
    query (λ t. one_or_none (select (at_id business_id invoice_id) t.invoices))

unfoldable pub get_by_order : ℕ → ℕ → Exec (Option Invoice)
get_by_order business_id order_id =
    query (λ t. one_or_none (select (at_order business_id order_id) t.invoices))

-- `order_by(Invoice.id.desc())`
unfoldable pub list : ℕ → Exec (List Invoice)
list business_id = query (λ t. ok (
    reverse (
      order_by (λ (i : Invoice). i.id)
        (select (λ (i : Invoice). i.business_id == business_id) t.invoices))))

-- `invoice.items`
unfoldable pub items : Invoice → Exec (List InvoiceItem)
items invoice = query (λ t. ok (
    order_by (λ (i : InvoiceItem). i.id)
      (select (λ (i : InvoiceItem). i.invoice_id == invoice.id) t.invoice_items)))

-- The attributes of a loaded row, written by the next flush.
abbrev pub set_invoice : Invoice → Tables → Tables
set_invoice i t = record t { invoices = assign (λ (j : Invoice). j.id) i t.invoices }

abbrev pub insert_invoice : Invoice → Tables → Tables
insert_invoice i t = record t { invoices = t.invoices ++ i ∷ [] }

abbrev pub insert_item : InvoiceItem → Tables → Tables
insert_item i t = record t { invoice_items = t.invoice_items ++ i ∷ [] }

-- The number that the counter of a business and a year stands at: 0 where there is no row.
unfoldable pub seq_in : ℕ → ℕ → List InvoiceCounter → ℕ
seq_in business_id year [] = 0
seq_in business_id year (c ∷ rows) =
    let rest = seq_in business_id year rows in
    if c.business_id == business_id && c.year == year then c.next_seq else rest

-- The UPSERT: a new row with 1, or the row of the same key with the next number.
unfoldable pub bump : ℕ → ℕ → List InvoiceCounter → List InvoiceCounter
bump business_id year [] = record { business_id = business_id; year = year; next_seq = 1 } ∷ []
bump business_id year (c ∷ rows) =
    let rest = bump business_id year rows in
    if c.business_id == business_id && c.year == year
    then record c { next_seq = c.next_seq + 1 } ∷ rows
    else c ∷ rest

abbrev pub bump_counter : ℕ → ℕ → Tables → Tables
bump_counter business_id year t = record t {
  invoice_counters = bump business_id year t.invoice_counters;
}

-- `session.refresh(invoice)`
abbrev pub refresh : Invoice → Exec Invoice
refresh = reload (λ (i : Invoice). i.id) (λ t. t.invoices)

module _ ⦃env : Env⦄ where
  -- `InvoiceRepository.add`
  unfoldable pub add : Invoice → Exec Invoice
  unfolding flush
  add invoice = do
    key ← fresh
    let row = record invoice { id = key }
    modify (insert_invoice row)
    flush
    pure row

  -- `InvoiceItemRepository.add`
  unfoldable pub add_item : InvoiceItem → Exec InvoiceItem
  unfolding flush
  add_item item = do
    key ← fresh
    let row = record item { id = key }
    modify (insert_item row)
    flush
    pure row

  -- `InvoiceCounterRepository.next_sequence`: the statement is sent, and returns the number.
  unfoldable pub next_sequence : ℕ → ℕ → Exec ℕ
  unfolding flush seq_in
  next_sequence business_id year = do
    modify (bump_counter business_id year)
    flush
    query (λ t. ok (seq_in business_id year t.invoice_counters))
