-- ===== src/Geo/Numeral.antt =====
-- The numerals that modules/geo/url-guard.ts reads and prints: `Number` and template printing on
-- decimal numerals, `parseInt(_, 16)` and `toString(16)`. The texts that reach them come from an
-- address that `isIP` accepted, so signs, blanks, fractions and exponents do not occur.
use ai_search_api.Base.{
  ℕ, zero, suc, ◌+◌, ◌-◌, ◌*◌, ◌/◌, ◌%◌, ◌<◌, ◌≡◌, refl, inl, inr, false, ◌&&◌, Option, none, some,
  [], ◌∷◌, ◌++◌, arith, ltb, leb, ◌==◌, if◌then◌else◌, Bool-cases, All,
}
use ai_search_api.Base.Text.{Text, split}
use mathlib.Core.Option

abbrev pub digit : ℕ → ℕ
digit d = if ltb d 10 then 48 + d else 87 + d

-- The value of a hexadecimal digit, of either case.
unfoldable pub digit_value : ℕ → Option ℕ
digit_value c =
    if leb 48 c && leb c 57
    then some (c - 48)
    else if leb 97 c && leb c 102
    then some (c - 87)
    else if leb 65 c && leb c 70
    then some (c - 55)
    else none

number_from : ℕ → Text → Option ℕ
number_from n [] = some n
number_from n (c ∷ s) = if leb 48 c && leb c 57 then number_from (n * 10 + (c - 48)) s else none

-- `Number(s)`; `none` is NaN, and the empty text is 0.
unfoldable pub number : Text → Option ℕ
unfolding number_from
number s = number_from 0 s

hex_from : ℕ → Text → ℕ
hex_from n [] = n
hex_from n (c ∷ s) = elim (digit_value c) [ none ↦ n | some d ↦ hex_from (n * 16 + d) s ]

-- `parseInt(s, 16)` reads the digits at the front; `none` is NaN.
unfoldable pub parse_hex : Text → Option ℕ
unfolding hex_from digit_value
parse_hex [] = none
parse_hex (c ∷ s) = elim (digit_value c) [ none ↦ none | some d ↦ some (hex_from d s) ]

unfoldable pub show_from : ℕ → ℕ → ℕ → Text
show_from base zero n = []
show_from base (suc f) n =
    let more = show_from base f (n / base) in
    if ltb n base then digit n ∷ [] else more ++ digit (n % base) ∷ []

-- `${n}`
unfoldable pub show : ℕ → Text
unfolding show_from
show n = show_from 10 (suc n) n

-- `n.toString(16)`
unfoldable pub show_hex : ℕ → Text
unfolding show_from
show_hex n = show_from 16 (suc n) n

number_from-append :
    (s : Text) (n d : ℕ)
    → d < 10
    → number_from n (s ++ digit d ∷ []) ≡ Option.map (λ m. m * 10 + d) (number_from n s)
unfolding number_from
number_from-append [] n d h = ground arith
number_from-append (c ∷ s) n d h = ground (arith, number_from-append s (n * 10 + (c - 48)) d h)

number-show_from : (f n : ℕ) → n < f → number_from 0 (show_from 10 f n) ≡ some n
unfolding show_from number_from
number-show_from zero n h = elim h [ ]
number-show_from (suc f) n h =
    ground
      (arith, number_from-append (show_from 10 f (n / 10)) 0 (n % 10), number-show_from f (n / 10))

-- A printed number is read back.
pub number-show : (n : ℕ) → number (show n) ≡ some n
unfolding number show
number-show n = number-show_from (suc n) n (omega arith)

-- A printed number holds no separator.
abbrev pub IsPlain : ℕ → Text → Type 0
IsPlain c s = All (λ u. (u == c) ≡ false) s

digit-ne : (d c : ℕ) → c < 48 → (digit d == c) ≡ false
digit-ne d c h = ground arith

IsPlain-append : (c : ℕ) (s t : Text) → IsPlain c s → IsPlain c t → IsPlain c (s ++ t)
IsPlain-append c [] t hs ht = ht
IsPlain-append c (u ∷ s) t hs ht = (hs.0, IsPlain-append c s t hs.1 ht)

show_from-IsPlain : (base f n c : ℕ) → c < 48 → IsPlain c (show_from base f n)
unfolding show_from
show_from-IsPlain base zero n c h = tt
show_from-IsPlain base (suc f) n c h = elim (Bool-cases (ltb n base)) [
  | inl small ↦ rw small (digit-ne n c h, tt)
  | inr big ↦ rw big (
      IsPlain-append c (show_from base f (n / base)) (digit (n % base) ∷ [])
        (show_from-IsPlain base f (n / base) c h) (digit-ne (n % base) c h, tt))
]

pub show-IsPlain : (n c : ℕ) → c < 48 → IsPlain c (show n)
unfolding show
show-IsPlain n c h = show_from-IsPlain 10 (suc n) n c h

-- Splitting takes a plain piece off, with the separator behind it.
pub split-plain : (c : ℕ) (s t : Text) → IsPlain c s → split c (s ++ (c ∷ t)) ≡ s ∷ split c t
unfolding split
split-plain c [] t h = ground arith
split-plain c (u ∷ s) t h = rw (split-plain c s t h.1, h.0)

pub split-plain_last : (c : ℕ) (s : Text) → IsPlain c s → split c s ≡ s ∷ []
unfolding split
split-plain_last c [] h = refl
split-plain_last c (u ∷ s) h = rw (split-plain_last c s h.1, h.0)
