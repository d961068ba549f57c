-- ===== src/Prelude/Texts.antt =====
-- Rust strings as the lists of their Unicode scalar values. `str::len` counts the bytes of UTF-8.
use Prim.Native.Nat.{ℕ, ◌+◌, ◌-◌, ◌/◌, ◌%◌}
use Prim.Native.Char.{code}
use Prim.Native.String.{String}
use mathlib.Core.Path.{◌≡◌, refl}
use mathlib.Core.Bool.{Bool, true, false, not, ◌&&◌, ◌||◌}
use mathlib.Core.List.{List, [], ◌∷◌, ◌++◌, map}
use native.Mathlib.Omega.{arith}
use aiknowledge_sort_mit.Prelude.Tests.{ltb, ◌==◌, in_range, if◌then◌else◌}
use aiknowledge_sort_mit.Prelude.Lists.{length, all}

abbrev pub Text : Type 0
Text = List ℕ

-- The scalar values of a literal.
abbrev pub codes : String → Text
codes String.[] = []
codes (String.◌∷◌ c s) = code c ∷ codes s

-- The bytes of a scalar value in UTF-8, and `str::as_bytes`.
unfoldable pub utf8_char : ℕ → List ℕ
utf8_char c =
    if ltb c 0x80
    then c ∷ []
    else if ltb c 0x800
    then (0xc0 + c / 64) ∷ (0x80 + c % 64) ∷ []
    else if ltb c 0x10000
    then (0xe0 + c / 4096) ∷ (0x80 + c / 64 % 64) ∷ (0x80 + c % 64) ∷ []
    else (0xf0 + c / 262144) ∷ (0x80 + c / 4096 % 64) ∷ (0x80 + c / 64 % 64) ∷ (0x80 + c % 64) ∷ []

unfoldable pub utf8 : Text → List ℕ
unfolding utf8_char
utf8 [] = []
utf8 (c ∷ t) = utf8_char c ++ utf8 t

-- `str::len`.
unfoldable pub byte_len : Text → ℕ
unfolding utf8
byte_len t = length (utf8 t)

unfoldable pub text_eq : Text → Text → Bool
text_eq [] [] = true
text_eq [] (_ ∷ _) = false
text_eq (_ ∷ _) [] = false
text_eq (c ∷ s) (d ∷ t) = (c == d) && text_eq s t

pub text_eq→eq : (s t : Text) → text_eq s t ≡ true → s ≡ t
unfolding text_eq
text_eq→eq [] [] h = refl
text_eq→eq [] (d ∷ t) h = absurd (ground arith)
text_eq→eq (c ∷ s) [] h = absurd (ground arith)
text_eq→eq (c ∷ s) (d ∷ t) h = ground (arith, text_eq→eq s t)

pub text_eq_refl : (s : Text) → text_eq s s ≡ true
unfolding text_eq
text_eq_refl [] = refl
text_eq_refl (c ∷ s) = ground (arith, text_eq_refl s)

pub eq→text_eq : (s t : Text) → s ≡ t → text_eq s t ≡ true
eq→text_eq s t h = rw h (text_eq_refl t)

pub text_eq_sym : (s t : Text) → text_eq s t ≡ text_eq t s
unfolding text_eq
text_eq_sym [] [] = refl
text_eq_sym [] (d ∷ t) = refl
text_eq_sym (c ∷ s) [] = refl
text_eq_sym (c ∷ s) (d ∷ t) = ground (arith, text_eq_sym s t)

-- `contains` of a list or a set of texts.
unfoldable pub member : Text → List Text → Bool
member t [] = false
member t (s ∷ ss) = text_eq s t || member t ss

-- A set of the texts is as large as the list: no text comes twice.
unfoldable pub distinct : List Text → Bool
unfolding member
distinct [] = true
distinct (t ∷ ts) = not (member t ts) && distinct ts

-- Byte tests of `u8` and of `char`.
abbrev pub is_ascii_digit : ℕ → Bool
is_ascii_digit c = in_range b'0' b'9' c

abbrev pub is_ascii_lowercase : ℕ → Bool
is_ascii_lowercase c = in_range b'a' b'z' c

abbrev pub is_ascii_uppercase : ℕ → Bool
is_ascii_uppercase c = in_range b'A' b'Z' c

abbrev pub is_ascii_alphanumeric : ℕ → Bool
is_ascii_alphanumeric c = is_ascii_digit c || is_ascii_lowercase c || is_ascii_uppercase c

-- `char::is_control`: the general category Cc.
abbrev pub is_control : ℕ → Bool
is_control c = ltb c 0x20 || in_range 0x7f 0x9f c

-- `char::is_whitespace`: the property White_Space.
abbrev pub is_whitespace : ℕ → Bool
is_whitespace c =
    in_range 0x9 0xd c
    || c == 0x20
    || c == 0x85
    || c == 0xa0
    || c == 0x1680
    || in_range 0x2000 0x200a c
    || c == 0x2028
    || c == 0x2029
    || c == 0x202f
    || c == 0x205f
    || c == 0x3000

-- A text of lowercase hexadecimal digits.
unfoldable pub all_lower_hex : Text → Bool
unfolding all utf8
all_lower_hex t = all (λ byte. is_ascii_digit byte || in_range b'a' b'f' byte) (utf8 t)

-- The byte-wise order of `str`, which is the order of the scalar values.
unfoldable pub text_le : Text → Text → Bool
text_le [] t = true
text_le (_ ∷ _) [] = false
text_le (c ∷ s) (d ∷ t) = ltb c d || (c == d && text_le s t)

-- Equality and the lexicographic order of `Vec<String>`.
unfoldable pub texts_eq : List Text → List Text → Bool
unfolding text_eq
texts_eq [] [] = true
texts_eq [] (_ ∷ _) = false
texts_eq (_ ∷ _) [] = false
texts_eq (s ∷ ss) (t ∷ ts) = text_eq s t && texts_eq ss ts

unfoldable pub texts_le : List Text → List Text → Bool
unfolding text_eq text_le
texts_le [] ts = true
texts_le (_ ∷ _) [] = false
texts_le (s ∷ ss) (t ∷ ts) = let rest = texts_le ss ts in if text_eq s t then rest else text_le s t

pub texts_eq→eq : (ss ts : List Text) → texts_eq ss ts ≡ true → ss ≡ ts
unfolding texts_eq
texts_eq→eq [] [] h = refl
texts_eq→eq [] (t ∷ ts) h = absurd (ground arith)
texts_eq→eq (s ∷ ss) [] h = absurd (ground arith)
texts_eq→eq (s ∷ ss) (t ∷ ts) h = ground (arith, texts_eq→eq ss ts, text_eq→eq s t)

pub texts_eq_refl : (ss : List Text) → texts_eq ss ss ≡ true
unfolding texts_eq
texts_eq_refl [] = refl
texts_eq_refl (s ∷ ss) = ground (arith, texts_eq_refl ss, text_eq_refl s)

-- `str::to_ascii_uppercase`.
abbrev pub to_ascii_uppercase : Text → Text
to_ascii_uppercase = map (λ c. if is_ascii_lowercase c then c - 32 else c)

-- `str::contains` of a text.
abbrev pub starts_with : Text → Text → Bool
starts_with [] t = true
starts_with (_ ∷ _) [] = false
starts_with (p ∷ ps) (c ∷ t) = (p == c) && starts_with ps t

unfoldable pub contains : Text → Text → Bool
contains part [] = starts_with part []
contains part (c ∷ t) = starts_with part (c ∷ t) || contains part t
