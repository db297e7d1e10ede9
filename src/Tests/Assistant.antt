-- ===== src/Tests/Assistant.antt =====
-- The theorems on the catalog assistant, and an approval of a draft.
use vyapar_ai.Prelude.{String, false, none, some, [], ◌∷◌, ◌≡◌, refl, any, all}
use vyapar_ai.Prelude.Int.{pos}
use vyapar_ai.Common.Decimal.{cents}
use vyapar_ai.Common.Result.{ok}
use vyapar_ai.Models.Catalog.{Product}
use vyapar_ai.Models.Draft.{CatalogAiDraft, DraftStatus}
use vyapar_ai.Models.Rows.{select, unique, unique_key, one_or_none, first, assign}
use vyapar_ai.Database.Tables.{admitted}
use vyapar_ai.Database.Session.{
  Session, session_on, fresh, now, sent, reload, ◌>>=◌, or_conflict, or_rollback,
}
use vyapar_ai.Catalog.{create_product}
use vyapar_ai.Database.Keeps.{IsValid}
use vyapar_ai.Catalogai.{approve}
use vyapar_ai.Catalogai.Provider.{mock}
use vyapar_ai.Catalogai.Effects.{after, generating, rejecting, but_drafts, but_drafts-after}
use vyapar_ai.Catalogai.Approval.{Approves, approve-Approves}
use vyapar_ai.Catalogai.Again.{approve_again}
use vyapar_ai.Catalogai.Repository.{at_id}
use vyapar_ai.Tests.Sample.{quiet, shop}
use vyapar_ai.Tests.Invoices.{storage}

abbrev draft : CatalogAiDraft
draft = record {
  id = 51;
  business_id = 7;
  status = DraftStatus.generated;
  source_storage_key = some "7/catalog-ai/0";
  source_image_url = some "memory://vyapar/7/catalog-ai/0";
  source_content_type = some "image/png";
  name = some "Tea ";
  description = none;
  category_suggestion = none;
  category_id = none;
  sku_suggestion = some "T1";
  price_amt = some (cents (pos 500));
  tags = some [];
  confidence = some (cents (pos 90));
  ai_provider = some "mock";
  ai_model = some "mock-1";
  error_code = none;
  error_detail = none;
  request_key = none;
  approved_product_id = none;
  approved_by = none;
  approved_at = none;
}

abbrev reviewing : Session
reviewing = session_on (record shop { drafts = draft ∷ [] })

reviewing-IsValid : IsValid reviewing
unfolding admitted unique_key unique any all
reviewing-IsValid = refl

abbrev tea : Product
tea = record {
  id = 100;
  business_id = 7;
  category_id = none;
  name = "Tea";
  description = none;
  price_amt = cents (pos 500);
  sku = "T1";
  is_deleted = false;
}

approved_run : (approve ⦃env = quiet⦄ 7 51 9 none reviewing).0 ≡ ok tea
unfolding approve create_product select one_or_none first assign sent ◌>>=◌ or_rollback or_conflict
    fresh reload now
approved_run = refl

found : select (at_id 7 51) reviewing.work.drafts ≡ draft ∷ []
unfolding select
found = refl

approve-Approves_example :
    Approves ⦃env = quiet⦄ 7 draft reviewing 9 none tea
      (approve ⦃env = quiet⦄ 7 51 9 none reviewing).1
approve-Approves_example =
    approve-Approves ⦃env = quiet⦄ 7 draft reviewing 9 none 51 found refl approved_run

approve_again_example :
    approve ⦃env = quiet⦄ 7 51 8 none (approve ⦃env = quiet⦄ 7 51 9 none reviewing).1
    ≡ (ok tea, (approve ⦃env = quiet⦄ 7 51 9 none reviewing).1)
approve_again_example =
    approve_again ⦃env = quiet⦄ 7 51 9 8 none none reviewing refl reviewing-IsValid approved_run

-- Upper and lower case are left as they are.
abbrev same_case : String → String
same_case text = text

but_drafts-after_example :
    but_drafts (
      after ⦃env = quiet⦄
        (mock "mock-1" (cents (pos 90)) "Groceries")
        same_case
        storage
        ((7, generating (1 ∷ []) "image/png" none "0") ∷ (7, rejecting 100) ∷ [])
        shop)
    ≡ but_drafts shop
but_drafts-after_example =
    but_drafts-after ⦃env = quiet⦄ (mock "mock-1" (cents (pos 90)) "Groceries") same_case storage
      ((7, generating (1 ∷ []) "image/png" none "0") ∷ (7, rejecting 100) ∷ []) shop
