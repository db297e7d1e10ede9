-- ===== src/Catalogai/Again.antt =====
-- An approval of app/catalogai/service.py that is repeated: the product is created once.
use vyapar_ai.Prelude.{
  ℕ, ◌≡◌, refl, sym, ap, ◌∙◌, Bool, true, false, not, ◌&&◌, ◌||◌, Option, none, some, [], ◌∷◌, ◌==◌,
  arith,
}
use vyapar_ai.Common.Result.{ok}
use vyapar_ai.Models.Catalog.{Product}
use vyapar_ai.Models.Draft.{CatalogAiDraft, drafts_admitted}
use vyapar_ai.Models.Rows.{select, one_or_none, unique_key}
use vyapar_ai.Models.Rows.Append.{select-append_key}
use vyapar_ai.Models.Rows.Assign.{select_of_one_or_none, select-holds, unique_key-assign}
use vyapar_ai.Models.Rows.Keys.{select-assign}
use vyapar_ai.Database.Tables.{Tables, admitted}
use vyapar_ai.Database.Session.{Env, Session}
use vyapar_ai.Database.Keeps.{IsValid}
use vyapar_ai.Database.Ends.{Ends, Ends-ok, map-Ends, or_raise-Ends}
use vyapar_ai.Database.Steps.{after_find, after_query, find_known, bind_known}
use vyapar_ai.Catalog.{get_product}
use vyapar_ai.Catalog.Creation.{keyed}
use vyapar_ai.Catalog.Repository.{get as get_product_row}
use vyapar_ai.Catalogai.{DraftEdit, product_made, approve_or_get, approve, get_draft}
use vyapar_ai.Catalogai.Repository.{at_id, get}
use vyapar_ai.Catalogai.Approval.{reviewed, with_edit, Approves, approved_row, approve_draft-Ends}

drafts_keyed :
    (t : Tables) → admitted t ≡ true → unique_key (λ (d : CatalogAiDraft). d.id) t.drafts ≡ true
unfolding admitted drafts_admitted
drafts_keyed t h = ground arith

-- The query of `get_product`.
abbrev is_active : ℕ → ℕ → Product → Bool
is_active business_id product_id p =
    p.id == product_id && p.business_id == business_id && (false || not p.is_deleted)

module _ ⦃env : Env⦄ (business_id draft_id : ℕ) where
  -- The approval of a draft that has a product answers with the product, and changes nothing.
  approve_made :
      (t : Session) (d : CatalogAiDraft) (product_id : ℕ) (p : Product) (approver : ℕ)
      (edit : Option DraftEdit)
      → select (at_id business_id draft_id) t.work.drafts ≡ d ∷ []
      → product_made d ≡ some product_id
      → select (is_active business_id product_id) t.work.products ≡ p ∷ []
      → approve business_id draft_id approver edit t ≡ (ok p, t)
  unfolding approve approve_or_get get_draft get get_product get_product_row one_or_none
  approve_made t d product_id p approver edit found made there =
      bind_known _ _ (find_known _ _ (ap one_or_none found))
      ∙ rw made (find_known _ _ (ap one_or_none there))

  module _ (s : Session) (clean : s.work ≡ s.committed) (valid : IsValid s) (draft : CatalogAiDraft)
      (found : select (at_id business_id draft_id) s.work.drafts ≡ draft ∷ []) where
    keyed_drafts : unique_key (λ (d : CatalogAiDraft). d.id) s.work.drafts ≡ true
    keyed_drafts = drafts_keyed s.work (ap admitted clean ∙ valid)

    holds : at_id business_id draft_id draft ≡ true
    holds = select-holds (at_id business_id draft_id) s.work.drafts found

    keyed_edit :
        (edit : Option DraftEdit)
        → unique_key (λ (d : CatalogAiDraft). d.id) (with_edit draft edit s.work).drafts ≡ true
    keyed_edit none = keyed_drafts
    keyed_edit (some edit) =
        unique_key-assign (λ (d : CatalogAiDraft). d.id) _ s.work.drafts ∙ keyed_drafts

    found_edit :
        (edit : Option DraftEdit)
        → select (at_id business_id draft_id) (with_edit draft edit s.work).drafts
          ≡ reviewed draft edit ∷ []
    found_edit none = found
    found_edit (some edit) =
        select-assign (λ (d : CatalogAiDraft). d.id) (at_id business_id draft_id) draft _
          s.work.drafts keyed_drafts found refl holds

    approved_again :
        (approver next_approver : ℕ) (edit next_edit : Option DraftEdit) (p : Product) (t : Session)
        → Approves business_id draft s approver edit p t
        → approve business_id draft_id next_approver next_edit t ≡ (ok p, t)
    approved_again approver next_approver edit next_edit p t a =
        approve_made t (approved_row business_id draft s approver edit p.id a.time) p.id p
          next_approver next_edit
          (ap (select (at_id business_id draft_id)) a.drafts
            ∙ select-assign (λ (d : CatalogAiDraft). d.id) (at_id business_id draft_id)
                (reviewed draft edit) _ (with_edit draft edit s.work).drafts (keyed_edit edit)
                (found_edit edit) refl (holds_edit edit))
          refl
          (ap (select (is_active business_id p.id)) a.products
            ∙ select-append_key (λ (q : Product). q.id) (is_active business_id p.id) s.work.products
                p
                (ap (unique_key (λ (q : Product). q.id)) (sym a.products)
                  ∙ keyed t.work a.admitted_after)
                (λ q h. ground (arith, h)) (is_found p a.business a.active))
      where
        holds_edit :
            (edit : Option DraftEdit) → at_id business_id draft_id (reviewed draft edit) ≡ true
        holds_edit none = holds
        holds_edit (some edit) = holds

        is_found :
            (q : Product)
            → q.business_id ≡ business_id
            → q.is_deleted ≡ false
            → is_active business_id q.id q ≡ true
        is_found q b d = ground (arith, b, d)

module _ ⦃env : Env⦄ (business_id draft_id approver next_approver : ℕ)
    (edit next_edit : Option DraftEdit) (s : Session) (clean : s.work ≡ s.committed)
    (valid : IsValid s) where
  -- The same approval, by whomever and with whatever edit, after a call that has ended in `t`.
  abbrev IsRepeated : Product → Session → Type 0
  IsRepeated p t = approve business_id draft_id next_approver next_edit t ≡ (ok p, t)

  module _ (draft : CatalogAiDraft)
      (h : one_or_none (select (at_id business_id draft_id) s.work.drafts) ≡ ok (some draft)) where
    found : select (at_id business_id draft_id) s.work.drafts ≡ draft ∷ []
    found = select_of_one_or_none (select (at_id business_id draft_id) s.work.drafts) h

    or_get-Ends :
        (made : Option ℕ)
        → product_made draft ≡ made
        → Ends IsRepeated (λ e t. Unit {0}) (approve_or_get business_id draft approver edit made) s
    unfolding approve_or_get get_product get_product_row
    or_get-Ends none e = map-Ends (approve_draft-Ends business_id draft s approver edit) λ p t a.
        approved_again business_id draft_id s clean valid draft found approver next_approver edit
          next_edit p t a
    or_get-Ends (some product_id) e =
        after_query _ _ (λ _ _. tt)
          λ row q.
            or_raise-Ends _ _ (λ _. tt)
              λ p g.
                approve_made business_id draft_id s draft product_id p next_approver next_edit found
                  e
                  (select_of_one_or_none (select (is_active business_id product_id) s.work.products)
                    (q ∙ ap ok g))

  approve_again-Ends :
      Ends IsRepeated (λ e t. Unit {0}) (approve business_id draft_id approver edit) s
  unfolding approve get_draft get
  approve_again-Ends =
      after_find _ _ _ (λ _. tt) λ draft h. or_get-Ends draft h (product_made draft) refl

  -- An approval is idempotent: when an approval has returned a product, the approval of the same draft
  -- again, by anyone and with any edit, returns the same product and changes nothing. The session
  -- has no pending writes before, and the tables satisfy their constraints.
  pub approve_again :
      {p : Product}
      → (approve business_id draft_id approver edit s).0 ≡ ok p
      → approve business_id draft_id next_approver next_edit
          (approve business_id draft_id approver edit s).1
        ≡ (ok p, (approve business_id draft_id approver edit s).1)
  approve_again h = Ends-ok approve_again-Ends h
