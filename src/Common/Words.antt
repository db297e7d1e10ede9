-- ===== src/Common/Words.antt =====
-- Python's `in` of a text in a text, `str.split` and `re.findall` of a class of characters, and the
-- first number of a text.
use Prim.Native.String.{[], ◌∷◌, ◌++◌ as str_append}
use Prim.Native.String.append
use Prim.Native.Char.{code}
use mathlib.Core.Bool.{true≢false}
use vyapar_ai.Prelude.{
  ◌≡◌, refl, sym, arith, ℕ, ◌+◌, ◌*◌, String, Bool, true, false, not, ◌&&◌, ◌||◌, Option, none,
  some, List, leb, ◌==◌, str_eq, if◌then◌else◌,
}
use vyapar_ai.Common.Text.{is_space}

-- `text.startswith(keyword)`
unfoldable pub starts_with : String → String → Bool
starts_with [] text = true
starts_with (k ∷ keyword) [] = false
starts_with (k ∷ keyword) (c ∷ text) = code k == code c && starts_with keyword text

-- `keyword in text`
unfoldable pub occurs : String → String → Bool
unfolding starts_with
occurs keyword [] = str_eq keyword ""
occurs keyword (c ∷ text) = starts_with keyword (c ∷ text) || occurs keyword text

code_itself : (n : ℕ) → (n == n) ≡ true
code_itself n = ground arith

starts_with-append :
    (keyword after : String) → starts_with keyword (str_append keyword after) ≡ true
unfolding starts_with
starts_with-append [] after = refl
starts_with-append (k ∷ keyword) after =
    rw (append.cons k keyword after) (rw (code_itself (code k)) (starts_with-append keyword after))

starts_with-occurs :
    (keyword text : String) → starts_with keyword text ≡ true → occurs keyword text ≡ true
unfolding starts_with occurs
starts_with-occurs [] [] h = refl
starts_with-occurs (k ∷ keyword) [] h = absurd (true≢false (sym h))
starts_with-occurs keyword (c ∷ text) h = rw h refl

-- A keyword occurs in what begins with it, and in what ends in a text that it occurs in.
pub occurs-first : (keyword after : String) → occurs keyword (str_append keyword after) ≡ true
occurs-first keyword after = starts_with-occurs keyword _ (starts_with-append keyword after)

pub occurs-later :
    (before keyword text : String)
    → occurs keyword text ≡ true
    → occurs keyword (str_append before text) ≡ true
unfolding occurs
occurs-later [] keyword text h = rw (append.nil text) h
occurs-later (c ∷ before) keyword text h =
    rw (append.cons c before text) (ground (arith, occurs-later before keyword text h))

abbrev add_word : String → List String → List String
add_word word words = if str_eq word "" then words else List.◌∷◌ word words

-- The longest parts of a text all of whose characters satisfy `p`, with `word` read so far.
unfoldable pub runs : (ℕ → Bool) → String → String → List String
runs p word [] = add_word word List.[]
runs p word (c ∷ text) =
    let longer = runs p (str_append word (c ∷ "")) text in
    let next = runs p "" text in if p (code c) then longer else add_word word next

-- `text.split()`
unfoldable pub split : String → List String
unfolding runs is_space
split = runs (λ c. not (is_space c)) ""

abbrev is_digit : ℕ → Bool
is_digit c = leb 48 c && leb c 57

-- `re.findall(r"[a-z0-9]+", text)`
unfoldable pub tokens : String → List String
unfolding runs
tokens = runs (λ c. is_digit c || (leb 97 c && leb c 122)) ""

-- Every character is one of 0 to 9, which is `isdigit` of a token.
unfoldable pub all_digits : String → Bool
all_digits [] = true
all_digits (c ∷ text) = is_digit (code c) && all_digits text

-- `int` of the first match of `\d+`, where `digit_value` has the decimal digits of Unicode, with the
-- value of the digits read so far.
unfoldable pub first_number : (ℕ → Option ℕ) → Option ℕ → String → Option ℕ
first_number digit_value found [] = found
first_number digit_value none (c ∷ text) = first_number digit_value (digit_value (code c)) text
first_number digit_value (some n) (c ∷ text) = elim (digit_value (code c)) [
  | none ↦ some n
  | some d ↦ first_number digit_value (some (n * 10 + d)) text
]

-- The number of characters.
unfoldable pub chars : String → ℕ
chars [] = 0
chars (c ∷ text) = 1 + chars text
