-- ===== src/Catalogai/Effects.antt =====
-- What the calls of app/catalogai/service.py reach: without an approval, the drafts and no other table.
use vyapar_ai.Prelude.{ℕ, String, ◌≡◌, refl, ◌∙◌, Option, none, some, List, [], ◌∷◌}
use vyapar_ai.Common.Patch.{Patch}
use vyapar_ai.Common.Storage.{Bytes, ObjectStorage}
use vyapar_ai.Models.Draft.{CatalogAiDraft}
use vyapar_ai.Database.Tables.{Tables}
use vyapar_ai.Database.Session.{Env, Exec, session_on}
use vyapar_ai.Database.Leaves.{Leaves, query-Leaves, pure-Leaves, leaves_committed, leaving}
use vyapar_ai.Catalogai.{
  DraftEdit, get_draft, earlier_draft, match_category, validate_category, record_answer,
  run_generation, generate_draft, regenerate, edit_draft, reject,
}
use vyapar_ai.Catalogai.Provider.{AiProvider, Described, described, failed}
use vyapar_ai.Catalogai.Repository.{add, get, get_by_request_key}
use vyapar_ai.Catalog.Repository.{list_category_rows}

-- The tables with the drafts forgotten.
abbrev pub but_drafts : Tables → Tables
but_drafts t = record t { drafts = [] }

-- A request to the assistant that is no approval.
pub data Request : Type 0 where
  generating : Bytes → String → Option String → String → Request
  regenerating : ℕ → Request
  editing : ℕ → DraftEdit → Request
  rejecting : ℕ → Request

get_draft-Leaves : (business_id draft_id : ℕ) → Leaves but_drafts (get_draft business_id draft_id)
unfolding get_draft get
get_draft-Leaves business_id draft_id = search leaving

earlier_draft-Leaves :
    (business_id : ℕ) (request_key : Option String)
    → Leaves but_drafts (earlier_draft business_id request_key)
unfolding earlier_draft get_by_request_key
earlier_draft-Leaves business_id none = pure-Leaves _
earlier_draft-Leaves business_id (some request_key) = query-Leaves _

validate_category-Leaves :
    (business_id : ℕ) (category_id : Patch ℕ)
    → Leaves but_drafts (validate_category business_id category_id)
unfolding validate_category list_category_rows
validate_category-Leaves business_id (Patch.value category_id) = search leaving
validate_category-Leaves business_id _ = pure-Leaves _

match_category-Leaves :
    (casefold : String → String) (business_id : ℕ) (suggestion : Option String)
    → Leaves but_drafts (match_category casefold business_id suggestion)
unfolding match_category list_category_rows
match_category-Leaves casefold business_id none = pure-Leaves _
match_category-Leaves casefold business_id (some suggestion) = search leaving

module _ ⦃env : Env⦄ where
  add-Leaves : (draft : CatalogAiDraft) → Leaves but_drafts (add draft)
  unfolding add
  add-Leaves draft = search (leaving, refl) depth 20

  edit_draft-Leaves :
      (business_id draft_id : ℕ) (edit : DraftEdit)
      → Leaves but_drafts (edit_draft business_id draft_id edit)
  unfolding edit_draft
  edit_draft-Leaves business_id draft_id edit =
      search (leaving, refl, get_draft-Leaves, validate_category-Leaves) depth 20

  reject-Leaves : (business_id draft_id : ℕ) → Leaves but_drafts (reject business_id draft_id)
  unfolding reject
  reject-Leaves business_id draft_id = search (leaving, refl, get_draft-Leaves) depth 20

  module _ (provider : AiProvider) (casefold : String → String) where
    record_answer-Leaves :
        (business_id : ℕ) (draft : CatalogAiDraft) (answer : Described)
        → Leaves but_drafts (record_answer provider casefold business_id draft answer)
    unfolding record_answer
    record_answer-Leaves business_id draft (failed e) = search (leaving, refl) depth 20
    record_answer-Leaves business_id draft (described payload) =
        search (leaving, refl, match_category-Leaves) depth 20

    run_generation-Leaves :
        (business_id : ℕ) (draft : CatalogAiDraft) (image : Bytes) (content_type : String)
        → Leaves but_drafts (run_generation provider casefold business_id draft image content_type)
    unfolding run_generation
    run_generation-Leaves business_id draft image content_type =
        record_answer-Leaves business_id draft _

    module _ (storage : ObjectStorage) where
      generate_draft-Leaves :
          (business_id : ℕ) (image : Bytes) (content_type : String) (request_key : Option String)
          (hex : String)
          → Leaves but_drafts (
              generate_draft provider casefold storage business_id image content_type request_key
                hex)
      unfolding generate_draft
      generate_draft-Leaves business_id image content_type request_key hex =
          search (leaving, refl, earlier_draft-Leaves, add-Leaves, run_generation-Leaves) depth 24

      regenerate-Leaves :
          (business_id draft_id : ℕ)
          → Leaves but_drafts (regenerate provider casefold storage business_id draft_id)
      unfolding regenerate
      regenerate-Leaves business_id draft_id =
          search (leaving, refl, get_draft-Leaves, run_generation-Leaves) depth 20

      -- The call that a request of a business makes.
      unfoldable pub call : ℕ → Request → Exec CatalogAiDraft
      unfolding generate_draft regenerate edit_draft reject
      call business_id (generating image content_type request_key hex) =
          generate_draft provider casefold storage business_id image content_type request_key hex
      call business_id (regenerating draft_id) =
          regenerate provider casefold storage business_id draft_id
      call business_id (editing draft_id edit) = edit_draft business_id draft_id edit
      call business_id (rejecting draft_id) = reject business_id draft_id

      -- The committed tables after requests of any businesses, each in a session of its own.
      unfoldable pub after : List (ℕ × Request) → Tables → Tables
      unfolding call
      after [] t = t
      after (request ∷ requests) t =
          after requests (call request.0 request.1 (session_on t)).1.committed

      call-Leaves :
          (business_id : ℕ) (request : Request) → Leaves but_drafts (call business_id request)
      unfolding call
      call-Leaves business_id (generating image content_type request_key hex) =
          generate_draft-Leaves business_id image content_type request_key hex
      call-Leaves business_id (regenerating draft_id) = regenerate-Leaves business_id draft_id
      call-Leaves business_id (editing draft_id edit) = edit_draft-Leaves business_id draft_id edit
      call-Leaves business_id (rejecting draft_id) = reject-Leaves business_id draft_id

      -- No sequence of requests to the catalog assistant creates or changes a product, or any other
      -- row but drafts, as long as none of them is an approval: whatever the provider, the storage
      -- and the database answer, and for requests of any businesses.
      pub but_drafts-after :
          (requests : List (ℕ × Request)) (t : Tables)
          → but_drafts (after requests t) ≡ but_drafts t
      unfolding after
      but_drafts-after [] t = refl
      but_drafts-after (request ∷ requests) t =
          but_drafts-after requests _
          ∙ leaves_committed (call-Leaves request.0 request.1) (session_on t) refl
