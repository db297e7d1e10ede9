-- ===== src/Invoice/GapFree.antt =====
-- `generate` of app/invoice/service.py keeps the sequence of invoice numbers without a gap: a number
-- that a transaction has taken goes back with its rollback.
use vyapar_ai.Prelude.{
  ℕ, ◌+◌, String, ◌≡◌, refl, sym, ap, ◌∙◌, true, Option, none, some, List, [], ◌∷◌, ◌++◌, ◌==◌,
  arith,
}
use mathlib.Core.Path.{subst}
use vyapar_ai.Common.Error.{Error, is_integrity}
use vyapar_ai.Common.Result.{Result, ok}
use vyapar_ai.Common.Storage.{Bytes, ObjectStorage}
use vyapar_ai.Models.Customer.{Customer}
use vyapar_ai.Models.Business.{Business}
use vyapar_ai.Models.Order.{Order, OrderItem}
use vyapar_ai.Models.Payment.{Payment}
use vyapar_ai.Models.Invoice.{Invoice, InvoiceItem, invoices_admitted}
use vyapar_ai.Models.Rows.{select, first, unique_key}
use vyapar_ai.Models.Rows.Append.{first-select_append}
use vyapar_ai.Models.Rows.Assign.{select_of_one_or_none}
use vyapar_ai.Models.Rows.Keys.{first-select_key}
use vyapar_ai.Database.Tables.{Tables, admitted}
use vyapar_ai.Database.Session.{Env, Session, query, fresh, now, sent}
use vyapar_ai.Database.Ends.{
  Ends, Ends-end, bind-Ends, catch-Ends, pure-Ends, raise-Ends, if-Ends, or_else-Ends, weaken-Ends,
  sent-admitted,
}
use vyapar_ai.Database.Steps.{
  after_known, after_modify, after_flush, after_commit, after_rollback, reload-Ends, after_steps,
  after_pure, after_query, after_or_raise, after_lift, after_raise_if,
}
use vyapar_ai.Invoice.{
  Issued, race_lost, hand_out, add_lines, write_snapshot, create_snapshot, ensure_pdf, generate,
  with_pdf, number_for, pdf_key, snapshot_of,
}
use vyapar_ai.Invoice.Repository.{
  at_order, get_by_order, add_item, add, next_sequence, seq_in, bump, items, set_invoice,
  bump_counter, insert_invoice,
}
use vyapar_ai.Invoice.Numbers.{IsGapFree, IsGapFree-add, IsGapFree-set}
use vyapar_ai.Order.Repository.{items as order_items, get as get_order_row}
use vyapar_ai.Customer
use vyapar_ai.Business
use vyapar_ai.Payment.Repository.{get_successful_for_order}

keyed : (t : Tables) → admitted t ≡ true → unique_key (λ (i : Invoice). i.id) t.invoices ≡ true
unfolding admitted invoices_admitted
keyed t h = ground arith

-- The row of an invoice is committed.
abbrev IsStored : Invoice → Session → Type 0
IsStored i t = first (select (λ (q : Invoice). q.id == i.id) t.committed.invoices) ≡ some i

-- The invoices and counters of a transaction, while the lines are written.
abbrev IsStaged : Session → Session → Type 0
IsStaged s t =
    (t.committed ≡ s.committed)
    × (t.work.invoices ≡ s.work.invoices)
    × (t.work.invoice_counters ≡ s.work.invoice_counters)

module _ ⦃env : Env⦄ (s : Session) (business_id invoice_id : ℕ) where
  add_lines-Ends :
      (lines : List OrderItem) {t : Session}
      → IsStaged s t
      → Ends
          (λ _ u. IsStaged s u)
          (λ e u. u.committed ≡ s.committed)
          (add_lines business_id invoice_id lines)
          t
  unfolding add_lines add_item fresh
  add_lines-Ends [] h = pure-Ends tt h
  add_lines-Ends (line ∷ lines) h = after_steps _ _ _ (
      after_known fresh _ refl (
        after_steps _ _ _ (
          after_modify _ _ (
            after_steps _ _ _
              (after_flush _ (λ _ _. h.0) λ _. after_pure _ _ (add_lines-Ends lines h))))))

module _ ⦃env : Env⦄ (year_of : ℕ → ℕ) (default_currency : String) where
  -- Nothing is pending, the numbers have no gap and the constraints hold.
  abbrev IsSound : Session → Type 0
  IsSound t = (t.work ≡ t.committed) × IsGapFree year_of t.committed × (admitted t.committed ≡ true)

  abbrev IsMade : Issued → Session → Type 0
  IsMade (Issued.new i) t = IsSound t × IsStored i t
  IsMade (Issued.earlier i) t = IsSound t × IsStored i t

  module _ (s : Session) (sound : IsSound s) where
    back : (t : Session) → t.committed ≡ s.committed → IsSound (record t { work = t.committed })
    back t h = (refl, subst (IsGapFree year_of) (sym h) sound.1, ap admitted h ∙ sound.2)

    made :
        (row : Invoice) (t : Session)
        → t.work.invoices ≡ s.work.invoices ++ row ∷ []
        → t.work.invoice_counters
          ≡ bump row.business_id (year_of row.issued_at) s.work.invoice_counters
        → row.invoice_number
          ≡ number_for (year_of row.issued_at) (
              seq_in row.business_id
                (year_of row.issued_at)
                (bump row.business_id (year_of row.issued_at) s.work.invoice_counters))
        → sent t ≡ none
        → IsMade (Issued.new row) (record t { calls = t.calls + 1; committed = t.work })
    made row t rows counters number accepted =
        let fits : admitted t.work ≡ true = sent-admitted t accepted in
        let unique_ids : unique_key (λ (i : Invoice). i.id) t.work.invoices ≡ true =
          keyed t.work fits in
        (
          (
            refl,
            λ b y.
                rw (rows, counters)
                  (IsGapFree-add year_of row s.work.invoices s.work.invoice_counters number
                    (subst (IsGapFree year_of) (sym sound.0) sound.1) b y),
            fits,
          ),
          rw rows (
              first-select_append (λ (i : Invoice). i.id) s.work.invoices row
                (rw rows at unique_ids)),
        )

    module _ (business_id : ℕ) (order : Order) (customer : Option Customer)
        (business : Option Business) (payment : Option Payment) (time : ℕ) where
      abbrev bumped : Tables
      bumped = bump_counter business_id (year_of time) s.work

      -- The row of the invoice that is issued.
      abbrev issued_row : Invoice
      issued_row =
          let number =
            number_for (year_of time) (seq_in business_id (year_of time) bumped.invoice_counters) in
          record (snapshot_of default_currency order customer business payment time number) {
            id = env.next_id (s.calls + 1);
            business_id = business_id;
          }

      -- The session when the row has been flushed.
      abbrev inserted : Session
      inserted = record s { work = insert_invoice issued_row bumped; calls = s.calls + 1 + 1 }

      write_snapshot-Ends :
          Ends IsMade
            (λ e t. t.committed ≡ s.committed)
            (write_snapshot year_of default_currency business_id order customer business payment
              time)
            s
      unfolding write_snapshot next_sequence add fresh order_items query
      write_snapshot-Ends = after_steps _ _ _ (
          after_modify _ _ (
            after_steps _ _ _ (
              after_flush _ (λ _ _. refl)
                λ _. after_known _ _ refl (
                  after_steps _ _ _ (
                    after_known fresh _ refl (
                      after_steps _ _ _ (
                        after_modify _ _ (
                          after_steps _ _ _ (
                            after_flush _ (λ _ _. refl)
                              λ _. after_pure _ _ (
                                after_known _ _ refl (
                                  bind-Ends _ _
                                    (add_lines-Ends inserted business_id issued_row.id _
                                      (refl, refl, refl))
                                    λ _ t h.
                                      after_commit _ (λ _ _. h.0)
                                        λ accepted.
                                          pure-Ends _
                                            (made issued_row t h.1 h.2 refl accepted))))))))))))

    race_lost-Ends :
        (business_id order_id : ℕ) (e : Error) (t : Session)
        → t.committed ≡ s.committed
        → Ends IsMade (λ e t. t.committed ≡ s.committed) (race_lost business_id order_id e) t
    unfolding get_by_order
    race_lost-Ends business_id order_id e t h = after_rollback _ (
        if-Ends (is_integrity e)
          (λ _.
            after_query _ _ (λ _ _. h)
              λ existing f.
                after_or_raise _ _ _ (λ _. h)
                  λ winner g. pure-Ends (Issued.earlier winner) (
                    (back t h),
                    first-select_key (λ (i : Invoice). i.id) (at_order business_id order_id) winner
                        t.committed.invoices [] (keyed t.committed (back t h).2)
                        (select_of_one_or_none _ (f ∙ ap ok g)),
                  ))
          λ _. raise-Ends e h)

    hand_out-Ends :
        (m : Issued) (t : Session)
        → IsMade m t
        → Ends
            (λ i u. IsMade (Issued.new i) u)
            (λ e u. IsGapFree year_of u.committed)
            (hand_out m)
            t
    unfolding hand_out
    hand_out-Ends (Issued.earlier i) t h = pure-Ends i h
    hand_out-Ends (Issued.new i) t h =
        reload-Ends _ _ i
          (subst
            (λ (w : Tables). first (select (λ (q : Invoice). q.id == i.id) w.invoices) ≡ some i)
            (sym h.0.0) h.1)
          h

    create_snapshot-Ends :
        (business_id : ℕ) (order : Order)
        → Ends
            (λ i u. IsMade (Issued.new i) u)
            (λ e u. IsGapFree year_of u.committed)
            (create_snapshot year_of default_currency business_id order)
            s
    unfolding create_snapshot now Customer.Repository.get Business.Repository.get
        get_successful_for_order
    create_snapshot-Ends business_id order =
        after_query _ _ (λ _ _. sound.1)
          λ customer _.
            after_query _ _ (λ _ _. sound.1)
              λ business _.
                after_query _ _ (λ _ _. sound.1)
                  λ payment _. after_known now _ refl (
                    bind-Ends _ _
                      (weaken-Ends
                        (catch-Ends _ _
                          (write_snapshot-Ends business_id order customer business payment _)
                          (race_lost-Ends business_id order.id))
                        λ e t h. subst (IsGapFree year_of) (sym h) sound.1)
                      hand_out-Ends)

  module _ (storage : ObjectStorage) (render : Invoice → List InvoiceItem → Result Bytes) where
    ensure_pdf-Ends :
        (i : Invoice) (t : Session)
        → IsMade (Issued.new i) t
        → Ends
            (λ j u. IsGapFree year_of u.committed)
            (λ e u. IsGapFree year_of u.committed)
            (ensure_pdf storage render i)
            t
    unfolding ensure_pdf items
    ensure_pdf-Ends i t h =
        catch-Ends {D = λ e u. IsGapFree year_of u.committed} _ _
          (after_query _ _ (λ _ _. h.0.1)
            λ lines _.
              after_lift _ _ (λ _ _. h.0.1)
                λ content _.
                  after_lift _ _ (λ _ _. h.0.1)
                    λ url _. after_modify _ _ (
                      after_commit _ (λ _ _. h.0.1)
                        λ _. pure-Ends _ (
                          subst
                            (λ (w : Tables).
                              IsGapFree year_of
                                (set_invoice (with_pdf i (pdf_key i.business_id i.id) url) w))
                            (sym h.0.0)
                            (IsGapFree-set year_of i (with_pdf i (pdf_key i.business_id i.id) url)
                              t.committed (keyed t.committed h.0.2) h.1 refl refl refl refl
                              h.0.1))))
          λ e u k. after_rollback _ (pure-Ends i k)

    module _ (s : Session) (sound : IsSound s) where
      generate-Ends :
          (business_id order_id : ℕ)
          → Ends
              (λ j u. IsGapFree year_of u.committed)
              (λ e u. IsGapFree year_of u.committed)
              (generate storage render year_of default_currency business_id order_id)
              s
      unfolding generate get_order_row get_by_order
      generate-Ends business_id order_id =
          after_query _ _ (λ _ _. sound.1)
            λ found _.
              after_or_raise found _ _ (λ _. sound.1)
                λ order _.
                  after_raise_if _ _ _ (λ _. sound.1)
                    λ _.
                      after_query _ _ (λ _ _. sound.1)
                        λ existing _.
                          or_else-Ends _ _ (λ _ _. sound.1)
                            λ _.
                              bind-Ends _ _ (create_snapshot-Ends s sound business_id order)
                                ensure_pdf-Ends

      -- However the generation of an invoice ends, the numbers of the invoices of each business and
      -- year are those from the first to the one that their counter stands at, in order, when they
      -- were so before. The session has no pending writes before, and the tables satisfy their
      -- constraints.
      pub generate-IsGapFree :
          (business_id order_id : ℕ)
          → IsGapFree year_of
              (generate storage render year_of default_currency business_id order_id s).1.committed
      generate-IsGapFree business_id order_id = Ends-end (generate-Ends business_id order_id)
