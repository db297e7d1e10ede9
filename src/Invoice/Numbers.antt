-- ===== src/Invoice/Numbers.antt =====
-- The sequence of invoice numbers that app/invoice/repository.py and app/invoice/service.py keep: what
-- a counter and the table of invoices say of each other.
use vyapar_ai.Prelude.{
  ℕ, zero, suc, String, ◌≡◌, refl, ◌∙◌, Bool, true, false, ◌&&◌, some, List, [], ◌∷◌, ◌++◌, map,
  ◌==◌, arith, inl, inr, Bool-cases,
}
use vyapar_ai.Models.Invoice.{Invoice, InvoiceCounter}
use vyapar_ai.Models.Rows.{select, first, unique_key}
use vyapar_ai.Models.Rows.Append.{select-append_found, select-append_other, map_append}
use vyapar_ai.Models.Rows.Keys.{map-select-assign}
use vyapar_ai.Database.Tables.{Tables}
use vyapar_ai.Invoice.{number_for}
use vyapar_ai.Invoice.Repository.{seq_in, bump, set_invoice}

-- The numbers of a year from the first to the `n`-th.
unfoldable pub numbered : ℕ → ℕ → List String
numbered year zero = []
numbered year (suc n) = numbered year n ++ number_for year (suc n) ∷ []

module _ (year_of : ℕ → ℕ) where
  -- The invoices of a business that were issued in a year.
  abbrev pub in_year : ℕ → ℕ → Invoice → Bool
  in_year business_id year i = i.business_id == business_id && year_of i.issued_at == year

  abbrev pub numbers : ℕ → ℕ → List Invoice → List String
  numbers business_id year rows =
      map (λ (i : Invoice). i.invoice_number) (select (in_year business_id year) rows)

  -- The numbers of each business and year are those from the first to the one that the counter
  -- stands at, in this order: none is missing and none occurs twice.
  abbrev pub IsGapFree : Tables → Type 0
  IsGapFree t =
      (business_id year : ℕ)
      → numbers business_id year t.invoices
        ≡ numbered year (seq_in business_id year t.invoice_counters)

pub seq_in-bump :
    (b y : ℕ) (rows : List InvoiceCounter) → seq_in b y (bump b y rows) ≡ suc (seq_in b y rows)
unfolding seq_in bump
seq_in-bump b y [] = ground arith
seq_in-bump b y (c ∷ rows) = ground (arith, seq_in-bump b y rows)

pub seq_in-bump_other :
    (b y c z : ℕ) (rows : List InvoiceCounter)
    → (b == c && y == z) ≡ false
    → seq_in c z (bump b y rows) ≡ seq_in c z rows
unfolding seq_in bump
seq_in-bump_other b y c z [] h = ground arith
seq_in-bump_other b y c z (r ∷ rows) h = ground (arith, seq_in-bump_other b y c z rows)

module _ (year_of : ℕ → ℕ) (invoice : Invoice) (rows : List Invoice)
    (counters : List InvoiceCounter) where
  abbrev year : ℕ
  year = year_of invoice.issued_at

  abbrev next : List InvoiceCounter
  next = bump invoice.business_id year counters

  module _ (n : invoice.invoice_number ≡ number_for year (seq_in invoice.business_id year next))
      (h : (b y : ℕ) → numbers year_of b y rows ≡ numbered y (seq_in b y counters)) where
    IsGapFree-last :
        numbered year (seq_in invoice.business_id year counters) ++ invoice.invoice_number ∷ []
        ≡ numbered year (seq_in invoice.business_id year next)
    unfolding numbered
    IsGapFree-last = rw (n, seq_in-bump invoice.business_id year counters) refl

    -- An invoice that takes the next number of its counter goes on with the sequence.
    pub IsGapFree-add :
        (b y : ℕ) → numbers year_of b y (rows ++ invoice ∷ []) ≡ numbered y (seq_in b y next)
    IsGapFree-add b y = elim (Bool-cases (in_year year_of b y invoice)) [
      | inr other ↦
          rw
            (
              select-append_other (in_year year_of b y) rows invoice other,
              seq_in-bump_other invoice.business_id year b y counters other,
            )
            (h b y)
      | inl here ↦
          let eb : b ≡ invoice.business_id = ground arith in
          let ey : y ≡ year = ground arith in
          rw
            (
              select-append_found (in_year year_of b y) rows invoice here,
              map_append (λ (i : Invoice). i.invoice_number) (select (in_year year_of b y) rows)
                  invoice,
              h b y,
              eb,
              ey,
            )
            IsGapFree-last
    ]

-- The document of an invoice is no part of the sequence.
pub IsGapFree-set :
    (year_of : ℕ → ℕ) (i j : Invoice) (t : Tables)
    → unique_key (λ (i : Invoice). i.id) t.invoices ≡ true
    → first (select (λ (q : Invoice). q.id == i.id) t.invoices) ≡ some i
    → j.id ≡ i.id
    → j.invoice_number ≡ i.invoice_number
    → j.business_id ≡ i.business_id
    → j.issued_at ≡ i.issued_at
    → IsGapFree year_of t
    → IsGapFree year_of (set_invoice j t)
IsGapFree-set year_of i j t u f e n b d h c y =
    map-select-assign (λ (i : Invoice). i.id) (in_year year_of c y)
      (λ (i : Invoice). i.invoice_number) i j t.invoices u f e (rw (b, d) refl) n
    ∙ h c y
