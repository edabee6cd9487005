-- ===== src/Core/ContentDisposition.antt =====
-- core/common/utils/content-disposition.ts, and the language's `encodeURIComponent`.
pub mod Safety
use ai_search_api.Base.{
  ℕ, ◌+◌, ◌-◌, ◌*◌, ◌/◌, ◌%◌, Bool, ◌&&◌, ◌||◌, Option, none, some, List, [], ◌∷◌, ◌++◌, map, ltb,
  leb, ◌==◌, if◌then◌else◌,
}
use ai_search_api.Base.Text.{Text, codes}

-- The bytes of a code point in UTF-8.
abbrev pub utf8 : ℕ → List ℕ
utf8 c =
    if ltb c 0x80
    then c ∷ []
    else if ltb c 0x800
    then (0xc0 + c / 64) ∷ (0x80 + c % 64) ∷ []
    else if ltb c 0x10000
    then (0xe0 + c / 4096) ∷ (0x80 + c / 64 % 64) ∷ (0x80 + c % 64) ∷ []
    else (0xf0 + c / 262144) ∷ (0x80 + c / 4096 % 64) ∷ (0x80 + c / 64 % 64) ∷ (0x80 + c % 64) ∷ []

abbrev pub hex_digit : ℕ → ℕ
hex_digit n = if ltb n 10 then 48 + n else 55 + n

abbrev pub percent : ℕ → Text
percent b = 37 ∷ hex_digit (b / 16 % 16) ∷ hex_digit (b % 16) ∷ []

abbrev pub percents : List ℕ → Text
percents [] = []
percents (b ∷ bs) = percent b ++ percents bs

-- Letters, digits and - _ . ! ~ * ' ( )
abbrev pub is_unreserved : ℕ → Bool
is_unreserved c =
    (leb 48 c && leb c 57)
    || (leb 65 c && leb c 90)
    || (leb 97 c && leb c 122)
    || (leb 39 c && leb c 42)
    || c == 33
    || c == 45
    || c == 46
    || c == 95
    || c == 126

abbrev pub is_high : ℕ → Bool
is_high c = leb 0xd800 c && ltb c 0xdc00

abbrev pub is_low : ℕ → Bool
is_low c = leb 0xdc00 c && ltb c 0xe000

abbrev pub code_point : ℕ → ℕ → ℕ
code_point c d = 0x10000 + (c - 0xd800) * 1024 + (d - 0xdc00)

abbrev pub encode_point : ℕ → Text
encode_point c = if is_unreserved c then c ∷ [] else percents (utf8 c)

abbrev pub before : Text → Option Text → Option Text
before s none = none
before s (some t) = some (s ++ t)

-- `encodeURIComponent`, which throws (none) at half a surrogate pair
unfoldable pub encode_uri_component : Text → Option Text
encode_uri_component [] = some []
encode_uri_component (c ∷ []) = if is_high c || is_low c then none else some (encode_point c)
encode_uri_component (c ∷ d ∷ s) =
    let next = encode_uri_component (d ∷ s) in
    let later = encode_uri_component s in
    if is_low c
    then none
    else if is_high c
    then (if is_low d then before (percents (utf8 (code_point c d))) later else none)
    else before (encode_point c) next

abbrev pub is_printable : ℕ → Bool
is_printable c = leb 0x20 c && leb c 0x7e

-- The two replacements, unit by unit.
abbrev pub ascii_unit : ℕ → ℕ
ascii_unit c = if is_printable c then c else 95

abbrev pub unquoted_unit : ℕ → ℕ
unquoted_unit c = if c == 34 || c == 92 then 95 else c

abbrev pub ascii_fallback : Text → Text
ascii_fallback filename = map unquoted_unit (map ascii_unit filename)

abbrev pub header : Text → Text → Text
header fallback encoded =
    codes "attachment; filename=\"" ++ (fallback ++ (codes "\"; filename*=UTF-8''" ++ encoded))

unfoldable pub attachment_disposition : Text → Option Text
unfolding encode_uri_component
attachment_disposition filename = elim (encode_uri_component filename) [
  | none ↦ none
  | some encoded ↦ some (header (ascii_fallback filename) encoded)
]
