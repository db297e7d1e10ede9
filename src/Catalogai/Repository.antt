-- ===== src/Catalogai/Repository.antt =====
-- app/catalogai/repository.py: `CatalogAiDraftRepository`.
use mathlib.Core.List.{reverse}
use vyapar_ai.Prelude.{ℕ, String, Bool, ◌&&◌, Option, some, List, [], ◌∷◌, ◌++◌, ◌==◌}
use vyapar_ai.Common.Result.{ok}
use vyapar_ai.Models.Draft.{CatalogAiDraft}
use vyapar_ai.Models.Payment.{same_key}
use vyapar_ai.Models.Rows.{select, one_or_none, first, order_by, assign}
use vyapar_ai.Database.Tables.{Tables}
use vyapar_ai.Database.Session.{Env, Exec, pure, query, modify, fresh, flush, reload, ◌>>=◌, ◌>>◌}

abbrev pub at_id : ℕ → ℕ → CatalogAiDraft → Bool
at_id business_id draft_id d = d.id == draft_id && d.business_id == business_id

unfoldable pub get : ℕ → ℕ → Exec (Option CatalogAiDraft)
get business_id draft_id = query (λ t. one_or_none (select (at_id business_id draft_id) t.drafts))

unfoldable pub get_by_request_key : ℕ → String → Exec (Option CatalogAiDraft)
get_by_request_key business_id request_key = query (λ t. ok (
    first (
      select
        (λ (d : CatalogAiDraft).
          d.business_id == business_id && same_key d.request_key (some request_key))
        t.drafts)))

-- `order_by(CatalogAiDraft.id.desc())`
unfoldable pub list : ℕ → Exec (List CatalogAiDraft)
list business_id = query (λ t. ok (
    reverse (
      order_by (λ (d : CatalogAiDraft). d.id)
        (select (λ (d : CatalogAiDraft). d.business_id == business_id) t.drafts))))

-- The attributes of a loaded row, written by the next flush.
abbrev pub set_draft : CatalogAiDraft → Tables → Tables
set_draft d t = record t { drafts = assign (λ (e : CatalogAiDraft). e.id) d t.drafts }

abbrev pub insert_draft : CatalogAiDraft → Tables → Tables
insert_draft d t = record t { drafts = t.drafts ++ d ∷ [] }

-- `session.refresh(draft)`
abbrev pub refresh : CatalogAiDraft → Exec CatalogAiDraft
refresh = reload (λ (d : CatalogAiDraft). d.id) (λ t. t.drafts)

module _ ⦃env : Env⦄ where
  unfoldable pub add : CatalogAiDraft → Exec CatalogAiDraft
  unfolding flush
  add draft = do
    key ← fresh
    let row = record draft { id = key }
    modify (insert_draft row)
    flush
    pure row
