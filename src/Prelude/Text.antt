-- ===== src/Prelude/Text.antt =====
-- What the program does with Python strings: case folding, stripping, prefixes and suffixes.
-- Case folding is that of the ASCII letters; other characters are left as they are.
use Prim.Native.Nat.{ℕ, zero, suc, ◌+◌, ◌-◌}
use Prim.Native.Char.{Char, char, code, IsScalar}
use Prim.Native.String.{String}
use mathlib.Core.Path.{◌≡◌, refl}
use mathlib.Core.Bool.{Bool, true, false, ◌&&◌, ◌||◌}
use mathlib.Core.List.{List, [], ◌∷◌}
use native.Mathlib.Omega.{arith}
use finna_app.Prelude.Tests.{ltb, leb, eqb, if◌then◌else◌, compare-lt, ltb→lt}

-- The code points of a string.
unfoldable pub codes : String → List ℕ
codes String.[] = []
codes (String.◌∷◌ c s) = code c ∷ codes s

pub IsScalar-ascii : (n : ℕ) → ltb n 128 ≡ true → IsScalar n
IsScalar-ascii n h = rw (compare-lt n 55296 (omega (arith, ltb→lt n 128 h))) tt

-- A character by its number, if that is ASCII; `c` otherwise.
ascii_or : Char → (n : ℕ) (b : Bool) → ltb n 128 ≡ b → Char
ascii_or c n true h = char n (IsScalar-ascii n h)
ascii_or c n false h = c

unfoldable pub lower_char : Char → Char
unfolding ascii_or
lower_char c =
    let n = code c in
    if leb b'A' n && leb n b'Z' then ascii_or c (n + 32) (ltb (n + 32) 128) refl else c

unfoldable pub upper_char : Char → Char
unfolding ascii_or
upper_char c =
    let n = code c in
    if leb b'a' n && leb n b'z' then ascii_or c (n - 32) (ltb (n - 32) 128) refl else c

-- `s.lower()`
unfoldable pub lower : String → String
unfolding lower_char
lower String.[] = ""
lower (String.◌∷◌ c s) = String.◌∷◌ (lower_char c) (lower s)

-- `s.upper()`
unfoldable pub upper : String → String
unfolding upper_char
upper String.[] = ""
upper (String.◌∷◌ c s) = String.◌∷◌ (upper_char c) (upper s)

-- `c.isspace()`
unfoldable pub is_space : ℕ → Bool
is_space n =
    (leb 9 n && leb n 13)
    || (leb 28 n && leb n 32)
    || eqb n 133
    || eqb n 160
    || eqb n 5760
    || (leb 8192 n && leb n 8202)
    || eqb n 8232
    || eqb n 8233
    || eqb n 8239
    || eqb n 8287
    || eqb n 12288

-- `not s.strip()`: the text holds nothing but white space.
unfoldable pub is_blank : String → Bool
unfolding is_space
is_blank String.[] = true
is_blank (String.◌∷◌ c s) = is_space (code c) && is_blank s

-- The list begins with the other one.
unfoldable pub is_prefix : List ℕ → List ℕ → Bool
is_prefix [] ys = true
is_prefix (x ∷ xs) [] = false
is_prefix (x ∷ xs) (y ∷ ys) = eqb x y && is_prefix xs ys

-- `needle in haystack`, and `re.search` of a literal.
unfoldable pub is_infix : List ℕ → List ℕ → Bool
unfolding is_prefix
is_infix xs [] = is_prefix xs []
is_infix xs (y ∷ ys) = is_prefix xs (y ∷ ys) || is_infix xs ys

-- Equality of two texts, character by character.
unfoldable pub is_same : List ℕ → List ℕ → Bool
is_same [] [] = true
is_same (x ∷ xs) (y ∷ ys) = eqb x y && is_same xs ys
is_same _ _ = false

-- `haystack.endswith(needle)`
unfoldable pub is_suffix : List ℕ → List ℕ → Bool
unfolding is_same
is_suffix xs [] = is_same xs []
is_suffix xs (y ∷ ys) = is_same xs (y ∷ ys) || is_suffix xs ys

-- `len(s)`
unfoldable pub size : String → ℕ
size String.[] = 0
size (String.◌∷◌ c s) = 1 + size s

-- `s[:n]`
unfoldable pub first_chars : ℕ → String → String
first_chars n String.[] = ""
first_chars zero (String.◌∷◌ c s) = ""
first_chars (suc n) (String.◌∷◌ c s) = String.◌∷◌ c (first_chars n s)

-- `s[n:]`
unfoldable pub after_chars : ℕ → String → String
after_chars n String.[] = ""
after_chars zero (String.◌∷◌ c s) = String.◌∷◌ c s
after_chars (suc n) (String.◌∷◌ c s) = after_chars n s
