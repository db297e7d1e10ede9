-- ===== src/Common/Dict.antt =====
-- Python's `dict` with keys that are strings, as a list of entries in the order of insertion.
use vyapar_ai.Prelude.{
  String, ◌≡◌, refl, false, Option, none, some, List, [], ◌∷◌, str_eq, eq_iff, ap, ◌∙◌,
  if◌then◌else◌, inl, inr, Bool-cases,
}

abbrev pub Dict : Type 0 → Type 0
Dict A = List (String × A)

module _ {A : Type 0} where
  -- `d.get(key)`
  unfoldable pub lookup : String → Dict A → Option A
  lookup key [] = none
  lookup key (entry ∷ d) =
      let rest = lookup key d in if str_eq entry.0 key then some entry.1 else rest

  -- `d[key] = value`
  unfoldable pub set : String → A → Dict A → Dict A
  set key value [] = (key, value) ∷ []
  set key value (entry ∷ d) =
      let rest = entry ∷ set key value d in if str_eq entry.0 key then (key, value) ∷ d else rest

  pub lookup-set_same :
      (key : String) (value : A) (d : Dict A) → lookup key (set key value d) ≡ some value
  unfolding lookup set
  lookup-set_same key value [] = rw ((eq_iff key key).1 refl) refl
  lookup-set_same key value (entry ∷ d) = elim (Bool-cases (str_eq entry.0 key)) [
    | inl t ↦ rw (t, (eq_iff key key).1 refl) refl
    | inr t ↦ rw t (rw t (lookup-set_same key value d))
  ]

  pub lookup-set_other :
      (key other : String) (value : A) (d : Dict A)
      → str_eq other key ≡ false
      → lookup key (set other value d) ≡ lookup key d
  unfolding lookup set
  lookup-set_other key other value [] h = rw h refl
  lookup-set_other key other value (entry ∷ d) h = elim (Bool-cases (str_eq entry.0 other)) [
    | inl t ↦
        let apart : str_eq entry.0 key ≡ false =
          ap (λ x. str_eq x key) ((eq_iff entry.0 other).0 t) ∙ h in
        rw (t, apart, h) refl
    | inr t ↦ rw t (
        ap (λ rest. if str_eq entry.0 key then some entry.1 else rest)
          (lookup-set_other key other value d h))
  ]
