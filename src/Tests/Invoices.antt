-- ===== src/Tests/Invoices.antt =====
-- The theorems on invoices, and the invoice of the sample order.
use vyapar_ai.Prelude.{ℕ, [], ◌∷◌, ◌≡◌, refl, true, List, map}
use vyapar_ai.Prelude.Int.{◌*ℤ◌, ◌-ℤ◌}
use vyapar_ai.Common.Error.{storage_error}
use vyapar_ai.Common.Decimal.{sub, scaled}
use vyapar_ai.Common.Result.{Result, ok, err}
use vyapar_ai.Common.Storage.{Bytes, ObjectStorage}
use vyapar_ai.Models.Invoice.{Invoice, InvoiceItem, same_order, same_number}
use vyapar_ai.Models.Rows.{select, unique, one_or_none, first, assign, order_by, insert_by}
use vyapar_ai.Database.Tables.{Tables}
use vyapar_ai.Database.Session.{session_on, fresh, now, sent, reload, or_else, ◌>>=◌}
use vyapar_ai.Invoice.{generate}
use vyapar_ai.Invoice.Repository.{seq_in, bump}
use vyapar_ai.Invoice.Numbers.{IsGapFree, numbered}
use vyapar_ai.Invoice.GapFree.{generate-IsGapFree}
use vyapar_ai.Invoice.Effects.{but_invoices, generate-unique}
use vyapar_ai.Tests.Sample.{quiet, paid_shop, paid_shop-IsValid}

abbrev year_of : ℕ → ℕ
year_of time = 2026

abbrev pub storage : ObjectStorage
storage = record {
  put = λ key content content_type. ok "memory://vyapar/invoice.pdf";
  get = λ key. err (storage_error "KeyError");
}

abbrev render : Invoice → List InvoiceItem → Result Bytes
render invoice lines = ok (37 ∷ [])

-- The tables when the sample order has been invoiced.
abbrev invoiced : Tables
invoiced =
    (generate ⦃env = quiet⦄ storage render year_of "INR" 7 21 (session_on paid_shop)).1.committed

-- The first invoice of the year has the number 1.
first_number : map (λ (i : Invoice). i.invoice_number) invoiced.invoices ≡ "INV-2026-0001" ∷ []
unfolding generate ◌*ℤ◌ ◌-ℤ◌ sub scaled select one_or_none first assign order_by insert_by sent
    ◌>>=◌ or_else fresh reload seq_in bump now
first_number = refl

no_invoices : IsGapFree year_of paid_shop
unfolding select numbered seq_in
no_invoices business_id year = refl

generate-IsGapFree_example : IsGapFree year_of invoiced
generate-IsGapFree_example =
    generate-IsGapFree ⦃env = quiet⦄ year_of "INR" storage render (session_on paid_shop)
      (refl, no_invoices, paid_shop-IsValid) 7 21

generate-unique_example :
    (unique same_order invoiced.invoices ≡ true)
    × (unique same_number invoiced.invoices ≡ true)
    × (but_invoices invoiced ≡ but_invoices paid_shop)
generate-unique_example =
    generate-unique ⦃env = quiet⦄ storage render year_of "INR" 7 21 (session_on paid_shop) refl
      paid_shop-IsValid
