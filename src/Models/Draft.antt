-- ===== src/Models/Draft.antt =====
-- app/catalogai/models.py: the drafts of the catalog assistant.
use vyapar_ai.Prelude.{ℕ, String, Bool, true, false, ◌&&◌, Option, List, ◌==◌}
use vyapar_ai.Common.Decimal.{Decimal}
use vyapar_ai.Models.Payment.{same_key}
use vyapar_ai.Models.Rows.{unique, unique_key}

pub data DraftStatus : Type 0 where
  pending generated failed approved rejected : DraftStatus

-- `status in APPROVABLE_FROM`, `status in REGENERATABLE_FROM`, `status in TERMINAL`
unfoldable pub approvable_from : DraftStatus → Bool
approvable_from generated = true
approvable_from _ = false

unfoldable pub regeneratable_from : DraftStatus → Bool
regeneratable_from generated = true
regeneratable_from failed = true
regeneratable_from pending = true
regeneratable_from _ = false

unfoldable pub is_terminal : DraftStatus → Bool
is_terminal approved = true
is_terminal rejected = true
is_terminal _ = false

abbrev pub is_approved : DraftStatus → Bool
is_approved approved = true
is_approved _ = false

-- `.value` of a member
abbrev pub status_value : DraftStatus → String
status_value pending = "PENDING"
status_value generated = "GENERATED"
status_value failed = "FAILED"
status_value approved = "APPROVED"
status_value rejected = "REJECTED"

-- The float `confidence` is carried and never computed with; a decimal stands for it.
pub record CatalogAiDraft : Type 0 where
  pub id : ℕ
  pub business_id : ℕ
  pub status : DraftStatus
  pub source_storage_key : Option String
  pub source_image_url : Option String
  pub source_content_type : Option String
  pub name : Option String
  pub description : Option String
  pub category_suggestion : Option String
  pub category_id : Option ℕ
  pub sku_suggestion : Option String
  pub price_amt : Option Decimal
  pub tags : Option (List String)
  pub confidence : Option Decimal
  pub ai_provider : Option String
  pub ai_model : Option String
  pub error_code : Option String
  pub error_detail : Option String
  pub request_key : Option String
  pub approved_product_id : Option ℕ
  pub approved_by : Option ℕ
  pub approved_at : Option ℕ

-- The primary key and `uq_catalog_ai_draft_request_key`.
abbrev pub same_request : CatalogAiDraft → CatalogAiDraft → Bool
same_request c d = c.business_id == d.business_id && same_key c.request_key d.request_key

unfoldable pub drafts_admitted : List CatalogAiDraft → Bool
unfolding unique unique_key
drafts_admitted rows = unique_key (λ (d : CatalogAiDraft). d.id) rows && unique same_request rows
