-- ===== src/Catalogai/Approval.antt =====
-- What `approve` of app/catalogai/service.py has done when it returns, and what it does again.
use vyapar_ai.Prelude.{
  ℕ, ◌+◌, String, ◌≡◌, refl, sym, ap, ◌∙◌, true, false, not, Option, none, some, [], ◌∷◌, ◌++◌,
  arith, str_eq, inl, inr, Bool-cases,
}
use vyapar_ai.Common.Decimal.{Decimal}
use vyapar_ai.Common.Patch.{Patch}
use vyapar_ai.Common.Result.{ok}
use vyapar_ai.Models.Catalog.{Product}
use vyapar_ai.Models.Draft.{CatalogAiDraft, DraftStatus, approvable_from}
use vyapar_ai.Models.Rows.{select, assign, one_or_none}
use vyapar_ai.Database.Tables.{Tables, admitted}
use vyapar_ai.Database.Session.{Env, Session, now, sent}
use vyapar_ai.Database.Ends.{
  Ends, sent-admitted, Ends-ok, ok_injective, raise_if-Ends, commit_accepted-Ends, bind-Ends,
  pure-Ends, or_rollback-Ends,
}
use vyapar_ai.Database.Steps.{
  after_known, after_modify, after_flush, after_steps, after_lift, after_raise_if, after_query,
  find_known,
}
use vyapar_ai.Catalog.{ProductCreate}
use vyapar_ai.Catalog.Creation.{Creates, create_product-Ends}
use vyapar_ai.Catalogai.{
  DraftEdit, edited, flush_edit, validate_category, stripped, with_price, build_product_create,
  approve_draft, get_draft, product_made, approve_or_get, approve,
}
use vyapar_ai.Catalogai.Repository.{at_id, get, set_draft}
use vyapar_ai.Catalog.Repository.{list_category_rows}

-- The draft that is approved: with the merchant's last edit, if there is one.
abbrev pub reviewed : CatalogAiDraft → Option DraftEdit → CatalogAiDraft
reviewed draft none = draft
reviewed draft (some edit) = edited draft edit

-- The tables with that edit.
abbrev pub with_edit : CatalogAiDraft → Option DraftEdit → Tables → Tables
with_edit draft none t = t
with_edit draft (some edit) t = set_draft (edited draft edit) t

with_edit-products :
    (draft : CatalogAiDraft) (edit : Option DraftEdit) (t : Tables)
    → (with_edit draft edit t).products ≡ t.products
with_edit-products draft none t = refl
with_edit-products draft (some edit) t = refl

-- What `_build_product_create` takes from a draft.
abbrev Takes : String → String → Option Decimal → ProductCreate → Type 0
Takes name sku price payload =
    (price ≡ some payload.price) × (payload.name ≡ name) × (payload.sku ≡ sku)

with_price-ok :
    (name sku : String) (draft : CatalogAiDraft) (price : Option Decimal) {payload : ProductCreate}
    → with_price name sku draft price ≡ ok payload
    → Takes name sku price payload
unfolding with_price
with_price-ok name sku draft none h = cc h
with_price-ok name sku draft (some price) h = (
  ap (λ (p : ProductCreate). some p.price) (ok_injective h),
  sym (ap (λ (p : ProductCreate). p.name) (ok_injective h)),
  sym (ap (λ (p : ProductCreate). p.sku) (ok_injective h)),
)

build-ok :
    (draft : CatalogAiDraft) {payload : ProductCreate}
    → build_product_create draft ≡ ok payload
    → Takes (stripped draft.name) (stripped draft.sku_suggestion) draft.price_amt payload
unfolding build_product_create
build-ok draft {payload} h = elim (Bool-cases (str_eq (stripped draft.name) "")) [
  | inl t ↦ cc (rw t at h)
  | inr f ↦ elim (Bool-cases (str_eq (stripped draft.sku_suggestion) "")) [
    | inl t ↦ cc (rw (f, t) at h)
    | inr g ↦ with_price-ok _ _ draft draft.price_amt (rw (f, g) at h)
  ]
]

module _ ⦃env : Env⦄ (business_id : ℕ) (draft : CatalogAiDraft) (s : Session) where
  category-Ends :
      (category_id : Patch ℕ)
      → Ends (λ r t. t ≡ s) (λ e t. Unit {0}) (validate_category business_id category_id) s
  unfolding validate_category list_category_rows
  category-Ends (Patch.value category_id) =
      after_query _ _ (λ _ _. tt) λ found _. raise_if-Ends _ _ (λ _. tt) (λ _. refl)
  category-Ends Patch.null = pure-Ends tt refl
  category-Ends Patch.unset = pure-Ends tt refl

  flush_edit-Ends :
      (edit : Option DraftEdit)
      → Ends
          (λ r t. (r ≡ reviewed draft edit) × (t.work ≡ with_edit draft edit s.work))
          (λ e t. Unit {0})
          (flush_edit business_id draft edit)
          s
  unfolding flush_edit
  flush_edit-Ends none = pure-Ends draft (refl, refl)
  flush_edit-Ends (some edit) =
      bind-Ends _ _ (category-Ends edit.category_id)
        λ r t h. rw h (after_modify _ _ (after_flush _ (λ _ _. tt) λ _. pure-Ends _ (refl, refl)))

  module _ (approver : ℕ) (edit : Option DraftEdit) where
    -- The row of the draft when it has been approved.
    abbrev pub approved_row : ℕ → ℕ → CatalogAiDraft
    approved_row product_id time = record (reviewed draft edit) {
      status = DraftStatus.approved;
      approved_product_id = some product_id;
      approved_by = some approver;
      approved_at = some time;
    }

    -- What an approval that returns has done.
    pub record Approves (p : Product) (t : Session) : Type 0 where
      pub approvable : approvable_from draft.status ≡ true
      pub price : (reviewed draft edit).price_amt ≡ some p.price_amt
      pub name : p.name ≡ stripped (reviewed draft edit).name
      pub sku : p.sku ≡ stripped (reviewed draft edit).sku_suggestion
      pub business : p.business_id ≡ business_id
      pub active : p.is_deleted ≡ false
      pub time : ℕ
      pub committed : t.committed ≡ t.work
      pub products : t.work.products ≡ s.work.products ++ p ∷ []
      pub drafts :
          t.work.drafts
          ≡ assign
              (λ (d : CatalogAiDraft). d.id)
              (approved_row p.id time)
              (with_edit draft edit s.work).drafts
      pub admitted_after : admitted t.work ≡ true

    -- The row that is written last, for the row `r` that was reviewed.
    abbrev last_row : CatalogAiDraft → ℕ → ℕ → CatalogAiDraft
    last_row r product_id time = record r {
      status = DraftStatus.approved;
      approved_product_id = some product_id;
      approved_by = some approver;
      approved_at = some time;
    }

    approves :
        (r : CatalogAiDraft) (t : Session) (payload : ProductCreate) (p : Product) (u : Session)
        → not (approvable_from draft.status) ≡ false
        → (r ≡ reviewed draft edit) × (t.work ≡ with_edit draft edit s.work)
        → build_product_create r ≡ ok payload
        → Creates business_id payload t p u
        → sent (record u { work = set_draft (last_row r p.id (env.now u.calls)) u.work }) ≡ none
        → Approves p (record u {
          work = set_draft (last_row r p.id (env.now u.calls)) u.work;
          calls = u.calls + 1;
          committed = set_draft (last_row r p.id (env.now u.calls)) u.work;
        })
    approves r t payload p u may h built c accepted =
        let taken : Takes (stripped r.name) (stripped r.sku_suggestion) r.price_amt payload =
          build-ok r built in
        record {
          approvable = ground (arith, may);
          price =
              ap (λ (d : CatalogAiDraft). d.price_amt) (sym h.0)
              ∙ taken.0
              ∙ ap (λ (q : Product). some q.price_amt) (sym c.result);
          name =
              ap (λ (q : Product). q.name) c.result
              ∙ taken.1
              ∙ ap (λ (d : CatalogAiDraft). stripped d.name) h.0;
          sku =
              ap (λ (q : Product). q.sku) c.result
              ∙ taken.2
              ∙ ap (λ (d : CatalogAiDraft). stripped d.sku_suggestion) h.0;
          business = ap (λ (q : Product). q.business_id) c.result;
          active = ap (λ (q : Product). q.is_deleted) c.result;
          time = env.now u.calls;
          committed = refl;
          products =
              ap (λ (w : Tables). w.products) c.tables
              ∙ ap (λ q. t.work.products ++ q ∷ []) (sym c.result)
              ∙ ap (λ (w : Tables). w.products ++ p ∷ []) h.1
              ∙ ap (λ rows. rows ++ p ∷ []) (with_edit-products draft edit s.work);
          drafts =
              ap
                (λ (d : CatalogAiDraft).
                  assign (λ (d : CatalogAiDraft). d.id) (last_row d p.id (env.now u.calls))
                    u.work.drafts)
                h.0
              ∙ ap (assign (λ (d : CatalogAiDraft). d.id) (approved_row p.id (env.now u.calls)))
                  (ap (λ (w : Tables). w.drafts) c.tables ∙ ap (λ (w : Tables). w.drafts) h.1);
          admitted_after = sent-admitted _ accepted;
        }

    pub approve_draft-Ends :
        Ends Approves (λ e t. Unit {0}) (approve_draft business_id draft approver edit) s
    unfolding approve_draft now
    approve_draft-Ends =
        after_raise_if _ _ _ (λ _. tt)
          λ may. bind-Ends _ _ (flush_edit-Ends edit) λ r t h.
            after_lift _ _ (λ _ _. tt)
              λ payload built. bind-Ends _ _ (create_product-Ends business_id payload t) λ p u c.
                after_known now _ refl (
                  after_steps _ _ _ (
                    after_modify _ _ (
                      bind-Ends _ _
                        (or_rollback-Ends {Q = λ _ w. Approves p w} u _
                          (commit_accepted-Ends (λ _. (refl, refl))
                            λ accepted. approves r t payload p u may h built c accepted)
                          (λ _ _ _. tt))
                        λ _ w q. pure-Ends p q)))

    approve-Ends :
        (draft_id : ℕ)
        → select (at_id business_id draft_id) s.work.drafts ≡ draft ∷ []
        → product_made draft ≡ none
        → Ends Approves (λ e t. Unit {0}) (approve business_id draft_id approver edit) s
    unfolding approve approve_or_get get_draft get one_or_none
    approve-Ends draft_id found made =
        after_known _ _ (find_known _ _ (ap one_or_none found)) (rw made approve_draft-Ends)

    -- An approval that returns a product, of a draft that is found and has none yet, was of a draft that
    -- may be approved, and has committed the product beside those that were there, and the draft as
    -- approved with the product's id. The price of the product is the one that the draft has from the
    -- merchant, the last edit applied; its name and SKU are the draft's, stripped.
    pub approve-Approves :
        (draft_id : ℕ) {p : Product}
        → select (at_id business_id draft_id) s.work.drafts ≡ draft ∷ []
        → product_made draft ≡ none
        → (approve business_id draft_id approver edit s).0 ≡ ok p
        → Approves p (approve business_id draft_id approver edit s).1
    approve-Approves draft_id found made h = Ends-ok (approve-Ends draft_id found made) h
