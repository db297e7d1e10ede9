-- ===== src/Invoice/Effects.antt =====
-- What the generation of an invoice by app/invoice/service.py reaches: the invoices, their lines and
-- their counters.
use vyapar_ai.Prelude.{ℕ, String, ◌≡◌, refl, true, Option, List, [], ◌∷◌, arith}
use vyapar_ai.Common.Result.{Result}
use vyapar_ai.Common.Storage.{Bytes, ObjectStorage}
use vyapar_ai.Models.Customer.{Customer}
use vyapar_ai.Models.Business.{Business}
use vyapar_ai.Models.Order.{Order, OrderItem}
use vyapar_ai.Models.Payment.{Payment}
use vyapar_ai.Models.Invoice.{Invoice, InvoiceItem, invoices_admitted, same_order, same_number}
use vyapar_ai.Models.Rows.{unique}
use vyapar_ai.Database.Tables.{Tables, admitted}
use vyapar_ai.Database.Session.{Env, Session}
use vyapar_ai.Database.Keeps.{IsValid, Keeps, pure-Keeps, reload-Keeps, bind-Keeps, keeping}
use vyapar_ai.Database.Leaves.{
  Leaves, pure-Leaves, reload-Leaves, bind-Leaves, leaves_committed, leaving,
}
use vyapar_ai.Customer
use vyapar_ai.Business
use vyapar_ai.Payment.Repository.{get_successful_for_order}
use vyapar_ai.Order.Repository.{items as order_items, get as get_order_row}
use vyapar_ai.Invoice.{
  Issued, hand_out, line_of, add_lines, write_snapshot, create_snapshot, ensure_pdf, generate,
}
use vyapar_ai.Invoice.Repository.{get_by_order, items, add, add_item, next_sequence}

-- The tables with the invoices forgotten.
abbrev pub but_invoices : Tables → Tables
but_invoices t = record t { invoices = []; invoice_items = []; invoice_counters = [] }

hand_out-Keeps : (made : Issued) → Keeps (hand_out made)
unfolding hand_out
hand_out-Keeps (Issued.earlier i) = pure-Keeps i
hand_out-Keeps (Issued.new i) = reload-Keeps _ _ i

hand_out-Leaves : (made : Issued) → Leaves but_invoices (hand_out made)
unfolding hand_out
hand_out-Leaves (Issued.earlier i) = pure-Leaves i
hand_out-Leaves (Issued.new i) = reload-Leaves _ _ i

invoices_unique :
    (t : Tables)
    → admitted t ≡ true
    → (unique same_order t.invoices ≡ true) × (unique same_number t.invoices ≡ true)
unfolding admitted invoices_admitted
invoices_unique t h = (ground arith, ground arith)

module _ ⦃env : Env⦄ where
  add_item-Keeps : (item : InvoiceItem) → Keeps (add_item item)
  unfolding add_item
  add_item-Keeps item = search keeping

  add_item-Leaves : (item : InvoiceItem) → Leaves but_invoices (add_item item)
  unfolding add_item
  add_item-Leaves item = search (leaving, refl) depth 20

  add_lines-Keeps :
      (business_id invoice_id : ℕ) (lines : List OrderItem)
      → Keeps (add_lines business_id invoice_id lines)
  unfolding add_lines
  add_lines-Keeps business_id invoice_id [] = pure-Keeps tt
  add_lines-Keeps business_id invoice_id (line ∷ lines) =
      bind-Keeps _ _ (add_item-Keeps (line_of business_id invoice_id line))
        λ _. add_lines-Keeps business_id invoice_id lines

  add_lines-Leaves :
      (business_id invoice_id : ℕ) (lines : List OrderItem)
      → Leaves but_invoices (add_lines business_id invoice_id lines)
  unfolding add_lines
  add_lines-Leaves business_id invoice_id [] = pure-Leaves tt
  add_lines-Leaves business_id invoice_id (line ∷ lines) =
      bind-Leaves _ _ (add_item-Leaves (line_of business_id invoice_id line))
        λ _. add_lines-Leaves business_id invoice_id lines

  add-Keeps : (invoice : Invoice) → Keeps (add invoice)
  unfolding add
  add-Keeps invoice = search keeping

  add-Leaves : (invoice : Invoice) → Leaves but_invoices (add invoice)
  unfolding add
  add-Leaves invoice = search (leaving, refl) depth 20

  next_sequence-Keeps : (business_id year : ℕ) → Keeps (next_sequence business_id year)
  unfolding next_sequence
  next_sequence-Keeps business_id year = search keeping

  next_sequence-Leaves :
      (business_id year : ℕ) → Leaves but_invoices (next_sequence business_id year)
  unfolding next_sequence
  next_sequence-Leaves business_id year = search (leaving, refl) depth 20

  module _ (year_of : ℕ → ℕ) (default_currency : String) where
    write_snapshot-Keeps :
        (business_id : ℕ) (order : Order) (customer : Option Customer) (business : Option Business)
        (payment : Option Payment) (time : ℕ)
        → Keeps (
            write_snapshot year_of default_currency business_id order customer business payment
              time)
    unfolding write_snapshot order_items
    write_snapshot-Keeps business_id order customer business payment time =
        search (keeping, next_sequence-Keeps, add-Keeps, add_lines-Keeps) depth 20

    write_snapshot-Leaves :
        (business_id : ℕ) (order : Order) (customer : Option Customer) (business : Option Business)
        (payment : Option Payment) (time : ℕ)
        → Leaves but_invoices (
            write_snapshot year_of default_currency business_id order customer business payment
              time)
    unfolding write_snapshot order_items
    write_snapshot-Leaves business_id order customer business payment time =
        search (leaving, next_sequence-Leaves, add-Leaves, add_lines-Leaves) depth 20

    create_snapshot-Keeps :
        (business_id : ℕ) (order : Order)
        → Keeps (create_snapshot year_of default_currency business_id order)
    unfolding create_snapshot Customer.Repository.get Business.Repository.get
        get_successful_for_order get_by_order
    create_snapshot-Keeps business_id order =
        search (keeping, write_snapshot-Keeps, hand_out-Keeps) depth 24

    create_snapshot-Leaves :
        (business_id : ℕ) (order : Order)
        → Leaves but_invoices (create_snapshot year_of default_currency business_id order)
    unfolding create_snapshot Customer.Repository.get Business.Repository.get
        get_successful_for_order get_by_order
    create_snapshot-Leaves business_id order =
        search (leaving, write_snapshot-Leaves, hand_out-Leaves) depth 24

  module _ (storage : ObjectStorage) (render : Invoice → List InvoiceItem → Result Bytes) where
    ensure_pdf-Keeps : (invoice : Invoice) → Keeps (ensure_pdf storage render invoice)
    unfolding ensure_pdf items
    ensure_pdf-Keeps invoice = search keeping depth 20

    ensure_pdf-Leaves :
        (invoice : Invoice) → Leaves but_invoices (ensure_pdf storage render invoice)
    unfolding ensure_pdf items
    ensure_pdf-Leaves invoice = search (leaving, refl) depth 20

    module _ (year_of : ℕ → ℕ) (default_currency : String) (business_id order_id : ℕ) where
      -- The committed tables when the generation has ended.
      abbrev pub ended : Session → Tables
      ended s =
          (generate storage render year_of default_currency business_id order_id s).1.committed

      generate-Keeps : Keeps (generate storage render year_of default_currency business_id order_id)
      unfolding generate get_order_row get_by_order
      generate-Keeps = search (keeping, create_snapshot-Keeps, ensure_pdf-Keeps) depth 24

      generate-Leaves :
          Leaves but_invoices
            (generate storage render year_of default_currency business_id order_id)
      unfolding generate get_order_row get_by_order
      generate-Leaves = search (leaving, create_snapshot-Leaves, ensure_pdf-Leaves) depth 24

      -- However the generation of an invoice ends, no order has two invoices and no business has two
      -- invoices of one number, and nothing but invoices, their lines and their counters has been
      -- committed: no order, payment, product or stock is changed. The session has no pending
      -- writes before, and the tables satisfied their constraints.
      pub generate-unique :
          (s : Session)
          → s.work ≡ s.committed
          → IsValid s
          → (unique same_order (ended s).invoices ≡ true)
            × (unique same_number (ended s).invoices ≡ true)
            × (but_invoices (ended s) ≡ but_invoices s.committed)
      generate-unique s clean valid =
          let rows : (unique same_order (ended s).invoices ≡ true)
              × (unique same_number (ended s).invoices ≡ true) =
            invoices_unique _ (generate-Keeps.keeps s valid) in
          (rows.0, rows.1, leaves_committed generate-Leaves s clean)
