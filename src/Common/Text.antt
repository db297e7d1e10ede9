-- ===== src/Common/Text.antt =====
-- Python's `str` of an `int`, as the f-strings of the services use it, and the methods of `str`
-- that they call.
use Prim.Native.String.{[], ◌∷◌, ◌++◌ as str_append}
use Prim.Native.Char.{code}
use vyapar_ai.Prelude.Int.{ℤ, pos, negsuc}
use vyapar_ai.Prelude.{
  ℕ, zero, suc, ◌/◌, ◌%◌, String, Bool, false, ◌&&◌, ◌||◌, ltb, leb, ◌==◌, str_eq, if◌then◌else◌,
}

-- The character of a digit.
unfoldable pub digit : ℕ → String
digit d =
    if d == 0
    then "0"
    else if d == 1
    then "1"
    else if d == 2
    then "2"
    else if d == 3
    then "3"
    else if d == 4
    then "4"
    else if d == 5
    then "5"
    else if d == 6
    then "6"
    else if d == 7
    then "7"
    else if d == 8
    then "8"
    else "9"

-- On fuel `n`, which is enough, since `n` has at most `n` digits.
unfoldable pub decimal_on : ℕ → ℕ → String
unfolding digit
decimal_on zero n = digit n
decimal_on (suc fuel) n =
    let longer = str_append (decimal_on fuel (n / 10)) (digit (n % 10)) in
    if ltb n 10 then digit n else longer

unfoldable pub decimal : ℕ → String
unfolding decimal_on
decimal n = decimal_on n n

-- Python's `str` of an `int` with a sign.
unfoldable pub decimal_ℤ : ℤ → String
unfolding decimal
decimal_ℤ (pos n) = decimal n
decimal_ℤ (negsuc n) = str_append "-" (decimal (suc n))

-- The format `04d`.
unfoldable pub pad_four : ℕ → String
unfolding decimal
pad_four n =
    if ltb n 10
    then str_append "000" (decimal n)
    else if ltb n 100
    then str_append "00" (decimal n)
    else if ltb n 1000
    then str_append "0" (decimal n)
    else decimal n

-- Python's `str.isspace` of one character.
unfoldable pub is_space : ℕ → Bool
is_space c =
    (leb 9 c && leb c 13)
    || (leb 28 c && leb c 32)
    || c == 133
    || c == 160
    || c == 5760
    || (leb 8192 c && leb c 8202)
    || c == 8232
    || c == 8233
    || c == 8239
    || c == 8287
    || c == 12288

-- `str.lstrip`, `str.rstrip` and `str.strip`
unfoldable lstrip : String → String
unfolding is_space
lstrip [] = ""
lstrip (c ∷ s) = let rest = lstrip s in if is_space (code c) then rest else c ∷ s

unfoldable rstrip : String → String
unfolding is_space
rstrip [] = ""
rstrip (c ∷ s) = let rest = rstrip s in if is_space (code c) && str_eq rest "" then "" else c ∷ rest

unfoldable pub strip : String → String
unfolding lstrip rstrip
strip s = rstrip (lstrip s)

-- `s[:n]`, which counts characters
unfoldable pub first_chars : ℕ → String → String
first_chars zero s = ""
first_chars (suc n) [] = ""
first_chars (suc n) (c ∷ s) = c ∷ first_chars n s

-- `s.endswith("s")`
unfoldable pub ends_with_s : String → Bool
ends_with_s [] = false
ends_with_s (c ∷ s) = let rest = ends_with_s s in if str_eq s "" then code c == 115 else rest

-- `s[:-1]`
unfoldable pub without_last : String → String
without_last [] = ""
without_last (c ∷ s) = let rest = without_last s in if str_eq s "" then "" else c ∷ rest

-- The part after the last white space, with `word` read so far: `s.split()[-1]` of a text that ends
-- with a word.
unfoldable last_part : String → String → String
unfolding is_space
last_part word [] = word
last_part word (c ∷ s) =
    let next = last_part "" s in
    let longer = last_part (str_append word (c ∷ "")) s in
    if is_space (code c) then next else longer

unfoldable pub last_word : String → String
unfolding last_part
last_word = last_part ""
