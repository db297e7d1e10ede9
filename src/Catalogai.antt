-- ===== src/Catalogai.antt =====
-- app/catalogai/service.py: `CatalogAiService`. The AI provider, the object storage and Unicode's case
-- folding are parameters.
pub mod Provider
pub mod Repository
pub mod Effects
pub mod Approval
pub mod Again
use Prim.Native.String.{◌++◌ as str_append}
use vyapar_ai.Prelude.{
  ℕ, String, Bool, true, false, not, any, Option, none, some, List, [], ◌∷◌, ◌==◌, str_eq,
  if◌then◌else◌,
}
use text.Mathlib.Text.{starts_with}
use vyapar_ai.Common.Error.{
  Error, not_found_error, validation_error, conflict_error, ai_generation_error,
}
use vyapar_ai.Common.Result
use vyapar_ai.Common.Result.{Result, ok, err}
use vyapar_ai.Common.Decimal.{Decimal}
use vyapar_ai.Common.Patch.{Patch, patched_option}
use vyapar_ai.Common.Storage.{Bytes, ObjectStorage}
use vyapar_ai.Common.Text.{decimal, strip, first_chars}
use vyapar_ai.Models.Catalog.{Category, Product}
use vyapar_ai.Models.Draft.{
  CatalogAiDraft, DraftStatus, approvable_from, regeneratable_from, is_terminal, is_approved,
  status_value,
}
use vyapar_ai.Database.Session.{
  Env, Exec, pure, raise, lift, or_raise, or_else, ◌>>=◌, ◌>>◌, raise_if, modify, or_rollback,
  flush, commit, now,
}
use vyapar_ai.Catalog.{ProductCreate, create_product, get_product}
use vyapar_ai.Catalog.Repository.{list_category_rows}
use Provider.{AiProvider, AiDraftPayload, AiProviderError, Described, described, failed}
use Repository.{get, get_by_request_key, list, set_draft, add, refresh}

-- app/catalogai/schemas.py: the fields that the merchant has set.
pub record DraftEdit : Type 0 where
  pub name : Patch String
  pub description : Patch String
  pub category_id : Patch ℕ
  pub sku : Patch String
  pub price : Patch Decimal

-- `_require`, and `get_draft`
unfoldable pub get_draft : ℕ → ℕ → Exec CatalogAiDraft
unfolding get
get_draft business_id draft_id = do
  found ← get business_id draft_id
  or_raise found (not_found_error "draft not found")

unfoldable pub list_drafts : ℕ → Exec (List CatalogAiDraft)
unfolding list
list_drafts business_id = list business_id

-- `f"{before} {draft.status.value}{after}"` of the errors
abbrev pub in_state : String → DraftStatus → String → Error
in_state before status after =
    conflict_error (str_append before (str_append (status_value status) after))

-- The loop of `_match_category`.
unfoldable pub find_category : (String → String) → String → List Category → Option ℕ
unfolding strip
find_category casefold wanted [] = none
find_category casefold wanted (category ∷ categories) =
    let rest = find_category casefold wanted categories in
    if str_eq (casefold (strip category.name)) wanted then some category.id else rest

-- `_match_category`
unfoldable pub match_category : (String → String) → ℕ → Option String → Exec (Option ℕ)
unfolding find_category list_category_rows strip
match_category casefold business_id none = pure none
match_category casefold business_id (some suggestion) =
    if str_eq suggestion "" then pure none else (do
      categories ← list_category_rows business_id
      pure (find_category casefold (casefold (strip suggestion)) categories))

-- `_validate_category`
unfoldable pub validate_category : ℕ → Patch ℕ → Exec (Unit {0})
unfolding list_category_rows any
validate_category business_id (Patch.value category_id) = do
  categories ← list_category_rows business_id
  raise_if (not (any (λ (c : Category). c.id == category_id) categories))
      (validation_error "category does not exist for this business")
validate_category business_id _ = pure tt

-- The assignments of `_apply_payload`, and of `_run_generation` after it.
abbrev pub generated_from : CatalogAiDraft → AiDraftPayload → Option ℕ → CatalogAiDraft
generated_from draft payload category_id = record draft {
  name = payload.name;
  description = payload.description;
  sku_suggestion = payload.sku_suggestion;
  tags = some payload.tags;
  confidence = some payload.confidence;
  category_suggestion = payload.category_suggestion;
  category_id = category_id;
  status = DraftStatus.generated;
  error_code = none;
  error_detail = none;
}

-- The assignments of `_run_generation` for a provider that failed.
unfoldable pub failed_with : CatalogAiDraft → AiProviderError → CatalogAiDraft
unfolding first_chars
failed_with draft e = record draft {
  status = DraftStatus.failed;
  error_code = some (Provider.error_code e.kind);
  error_detail = some (first_chars 2000 e.detail);
}

-- The assignments of `_apply_edit`.
abbrev pub edited : CatalogAiDraft → DraftEdit → CatalogAiDraft
edited draft edit = record draft {
  category_id = patched_option edit.category_id draft.category_id;
  name = patched_option edit.name draft.name;
  description = patched_option edit.description draft.description;
  sku_suggestion = patched_option edit.sku draft.sku_suggestion;
  price_amt = patched_option edit.price draft.price_amt;
}

-- `(value or "").strip()`
unfoldable pub stripped : Option String → String
unfolding strip
stripped none = ""
stripped (some value) = strip value

-- The end of `_build_product_create`, with the price of the draft.
unfoldable pub with_price : String → String → CatalogAiDraft → Option Decimal → Result ProductCreate
with_price name sku draft none =
    err (validation_error "price must be set by the merchant before approval")
with_price name sku draft (some price) = ok (record {
  name = name;
  price = price;
  sku = sku;
  category_id = draft.category_id;
  description = draft.description;
})

-- `_build_product_create`; the schema's own bounds are met by the columns of a draft.
unfoldable pub build_product_create : CatalogAiDraft → Result ProductCreate
unfolding stripped with_price
build_product_create draft =
    let name = stripped draft.name in
    let sku = stripped draft.sku_suggestion in
    if str_eq name ""
    then err (validation_error "product name is required before approval")
    else if str_eq sku ""
    then err (validation_error "sku is required before approval")
    else with_price name sku draft draft.price_amt

-- The product of a draft that is approved already.
abbrev pub product_made : CatalogAiDraft → Option ℕ
product_made draft = if is_approved draft.status then draft.approved_product_id else none

-- The row that `generate_draft` inserts.
abbrev pub draft_of : AiProvider → ℕ → String → String → String → Option String → CatalogAiDraft
draft_of provider business_id key url content_type request_key = record {
  id = 0;
  business_id = business_id;
  status = DraftStatus.pending;
  source_storage_key = some key;
  source_image_url = some url;
  source_content_type = some content_type;
  name = none;
  description = none;
  category_suggestion = none;
  category_id = none;
  sku_suggestion = none;
  price_amt = none;
  tags = none;
  confidence = none;
  ai_provider = some provider.name;
  ai_model = some provider.model;
  error_code = none;
  error_detail = none;
  request_key = request_key;
  approved_product_id = none;
  approved_by = none;
  approved_at = none;
}

-- `f"{business_id}/catalog-ai/{uuid4().hex}"`
unfoldable pub image_key : ℕ → String → String
unfolding decimal
image_key business_id hex = str_append (decimal business_id) (str_append "/catalog-ai/" hex)

-- `content_type or default`
abbrev pub or_default : Option String → String → String
or_default none default = default
or_default (some text) default = if str_eq text "" then default else text

-- The draft of an earlier request with the same key.
unfoldable pub earlier_draft : ℕ → Option String → Exec (Option CatalogAiDraft)
unfolding get_by_request_key
earlier_draft business_id none = pure none
earlier_draft business_id (some request_key) = get_by_request_key business_id request_key

abbrev pub is_empty_image : Bytes → Bool
is_empty_image [] = true
is_empty_image _ = false

module _ ⦃env : Env⦄ where
  -- A draft is written and committed, with `_commit` for the rollback.
  abbrev pub save : CatalogAiDraft → Exec (Unit {0})
  save changed = do modify (set_draft changed); or_rollback commit

  -- `_apply_edit`, where there is an edit, and the flush of `approve`.
  unfoldable pub flush_edit : ℕ → CatalogAiDraft → Option DraftEdit → Exec CatalogAiDraft
  unfolding validate_category flush
  flush_edit business_id draft none = pure draft
  flush_edit business_id draft (some edit) = do
    validate_category business_id edit.category_id
    let changed = edited draft edit
    modify (set_draft changed)
    flush
    pure changed

  unfoldable pub edit_draft : ℕ → ℕ → DraftEdit → Exec CatalogAiDraft
  unfolding get_draft validate_category is_terminal commit
  edit_draft business_id draft_id edit = do
    draft ← get_draft business_id draft_id
    raise_if (is_terminal draft.status) (in_state "a " draft.status " draft cannot be edited")
    validate_category business_id edit.category_id
    let changed = edited draft edit
    save changed
    refresh changed

  unfoldable pub reject : ℕ → ℕ → Exec CatalogAiDraft
  unfolding get_draft is_terminal commit
  reject business_id draft_id = do
    draft ← get_draft business_id draft_id
    raise_if (is_terminal draft.status) (in_state "a " draft.status " draft cannot be rejected")
    let changed = record draft { status = DraftStatus.rejected }
    save changed
    refresh changed

  -- `approve` of a draft that has no product yet.
  unfoldable pub approve_draft : ℕ → CatalogAiDraft → ℕ → Option DraftEdit → Exec Product
  unfolding flush_edit create_product build_product_create commit approvable_from
  approve_draft business_id draft approver_user_id edit = do
    raise_if (not (approvable_from draft.status))
        (in_state "draft cannot be approved from state " draft.status "")
    reviewed ← flush_edit business_id draft edit
    payload ← lift (build_product_create reviewed)
    product ← create_product business_id payload
    time ← now
    save (record reviewed {
      status = DraftStatus.approved;
      approved_product_id = some product.id;
      approved_by = some approver_user_id;
      approved_at = some time;
    })
    pure product

  -- `approve` once the draft is found, by the product that it has.
  unfoldable pub approve_or_get :
      ℕ → CatalogAiDraft → ℕ → Option DraftEdit → Option ℕ → Exec Product
  unfolding get_product approve_draft
  approve_or_get business_id draft approver_user_id edit (some product_id) =
      get_product business_id product_id
  approve_or_get business_id draft approver_user_id edit none =
      approve_draft business_id draft approver_user_id edit

  unfoldable pub approve : ℕ → ℕ → ℕ → Option DraftEdit → Exec Product
  unfolding get_draft approve_or_get
  approve business_id draft_id approver_user_id edit = do
    draft ← get_draft business_id draft_id
    approve_or_get business_id draft approver_user_id edit (product_made draft)

  module _ (provider : AiProvider) (casefold : String → String) where
    -- What `_run_generation` makes of the provider's answer.
    unfoldable pub record_answer : ℕ → CatalogAiDraft → Described → Exec CatalogAiDraft
    unfolding commit match_category failed_with
    record_answer business_id draft (failed e) = do
      save (failed_with draft e)
      raise (ai_generation_error "AI generation failed; the draft was saved and can be retried")
    record_answer business_id draft (described payload) = do
      category_id ← match_category casefold business_id payload.category_suggestion
      let changed = generated_from draft payload category_id
      save changed
      refresh changed

    -- `_run_generation`
    unfoldable pub run_generation : ℕ → CatalogAiDraft → Bytes → String → Exec CatalogAiDraft
    unfolding record_answer
    run_generation business_id draft image content_type =
        record_answer business_id draft (provider.describe image content_type)

    module _ (storage : ObjectStorage) where
      -- `hex` is what `uuid4().hex` answers.
      unfoldable pub generate_draft :
          ℕ → Bytes → String → Option String → String → Exec CatalogAiDraft
      unfolding earlier_draft add commit run_generation image_key or_else
      generate_draft business_id image content_type request_key hex = do
        raise_if (not (starts_with content_type "image/"))
            (validation_error "only image content types are supported")
        raise_if (is_empty_image image) (validation_error "empty image payload")
        existing ← earlier_draft business_id request_key
        or_else existing (do
          let key = image_key business_id hex
          url ← lift (storage.put key image content_type)
          draft ← add (draft_of provider business_id key url content_type request_key)
          or_rollback commit
          run_generation business_id draft image content_type)

      unfoldable pub regenerate : ℕ → ℕ → Exec CatalogAiDraft
      unfolding get_draft run_generation regeneratable_from
      regenerate business_id draft_id = do
        draft ← get_draft business_id draft_id
        raise_if (not (regeneratable_from draft.status))
            (in_state "draft cannot be regenerated from state " draft.status "")
        let key = or_default draft.source_storage_key ""
        raise_if (str_eq key "") (validation_error "draft has no source image to regenerate from")
        image ← lift (storage.get key)
        run_generation business_id draft image (or_default draft.source_content_type "image/jpeg")
