-- ===== src/Common/Patch.antt =====
-- A field of a partial update, as `model_dump(exclude_unset=True)` leaves it: absent, present with
-- null, or present with a value.
use vyapar_ai.Prelude.{Bool, true, false, Option, none, some}

pub data Patch (A : Type 0) : Type 0 where
  unset : Patch A
  null : Patch A
  value : A → Patch A

module _ {A : Type 0} where
  -- `if "f" in data: row.f = data["f"]` for a column that is not nullable, where null is refused.
  abbrev pub patched : Patch A → A → A
  patched (value new) old = new
  patched _ old = old

  -- The same for a nullable column.
  abbrev pub patched_option : Patch A → Option A → Option A
  patched_option unset old = old
  patched_option null old = none
  patched_option (value new) old = some new

  abbrev pub is_null : Patch A → Bool
  is_null null = true
  is_null _ = false
