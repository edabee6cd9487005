-- ===== src/Geo/Address.antt =====
-- modules/geo/url-guard.ts, `isBlockedV4`, `expandV6`, `isBlockedV6` and `isBlockedAddress`.
-- A text is a list of code units. `isIP` (node:net) is a parameter.
pub mod Ranges
pub mod Expand
use ai_search_api.Base.{
  ℕ, ◌+◌, ◌-◌, ◌*◌, ◌/◌, ◌%◌, Bool, true, false, ◌&&◌, ◌||◌, Option, none, some, List, [], ◌∷◌,
  ◌++◌, map, leb, ◌==◌, if◌then◌else◌, length, replicate, all,
}
use Prim.Native.Nat.{bit_and}
use ai_search_api.Base.Text.{Text, split, to_lower_case}
use ai_search_api.Geo.Numeral.{number, parse_hex, show, show_hex}

-- The four parts, if each is a number from 0 to 255.
unfoldable pub octets : List (Option ℕ) → Option (ℕ × ℕ × ℕ × ℕ)
octets (some a ∷ some b ∷ some c ∷ some d ∷ []) =
    if leb a 255 && leb b 255 && leb c 255 && leb d 255 then some (a, b, c, d) else none
octets _ = none

unfoldable pub blocked_octets : ℕ → ℕ → ℕ → Bool
blocked_octets a b c =
    a == 0
    || a == 127
    || a == 10
    || (a == 172 && leb 16 b && leb b 31)
    || (a == 192 && b == 168)
    || (a == 169 && b == 254)
    || (a == 100 && leb 64 b && leb b 127)
    || (a == 198 && (b == 18 || b == 19))
    || (a == 192 && b == 0 && c == 0)
    || (a == 192 && b == 88 && c == 99)
    || leb 224 a

unfoldable pub is_blocked_v4 : Text → Bool
is_blocked_v4 ip = elim (octets (map number (split b'.' ip))) [
  | none ↦ true
  | some (a, b, c, _) ↦ blocked_octets a b c
]

-- `${a}.${b}.${c}.${d}`
unfoldable pub dotted : ℕ → ℕ → ℕ → ℕ → Text
dotted a b c d = show a ++ (b'.' ∷ (show b ++ (b'.' ∷ (show c ++ (b'.' ∷ show d)))))

is_digits : Text → Bool
is_digits [] = false
is_digits (c ∷ s) = all (λ u. leb 48 u && leb u 57) (c ∷ s)

-- `/^(.*:)(\d+\.\d+\.\d+\.\d+)$/`: the text up to its last colon, that colon included, and the
-- rest. The first group is greedy and the second holds no colon.
cut_last_colon : Text → Option (Text × Text)
cut_last_colon [] = none
cut_last_colon (c ∷ s) = elim (cut_last_colon s) [
  | some (before, after) ↦ some (c ∷ before, after)
  | none ↦ if c == b':' then some (c ∷ [], s) else none
]

is_quad : Text → Bool
unfolding is_digits
is_quad s = length (split b'.' s) == 4 && all is_digits (split b'.' s)

-- Fold a trailing dotted IPv4 into two hextets; `none` where an octet is out of range. Octets are
-- at most 255 there, so `|` after the shift is `+`.
fold_v4 : Text → Option Text
unfolding cut_last_colon is_quad
fold_v4 s = elim (cut_last_colon s) [
  | none ↦ some s
  | some (before, after) ↦
      if is_quad after
      then (elim (octets (map number (split b'.' after))) [
        | none ↦ none
        | some (a, b, c, d) ↦
            some (before ++ (show_hex (a * 256 + b) ++ (b':' ∷ show_hex (c * 256 + d))))
      ])
      else some s
]

abbrev push_first : ℕ → List Text → List Text
push_first c [] = (c ∷ []) ∷ []
push_first c (w ∷ ws) = (c ∷ w) ∷ ws

-- `s.split('::')`; the flag says that the unit before was a colon that is not yet placed.
split_pairs : Bool → Text → List Text
split_pairs false [] = [] ∷ []
split_pairs true [] = (b':' ∷ []) ∷ []
split_pairs false (c ∷ s) =
    let held = split_pairs true s in
    let rest = split_pairs false s in if c == b':' then held else push_first c rest
split_pairs true (c ∷ s) =
    let rest = split_pairs false s in
    if c == b':' then [] ∷ rest else push_first b':' (push_first c rest)

-- `h ? h.split(':') : []`
pieces : Text → List Text
pieces [] = []
pieces (c ∷ s) = split b':' (c ∷ s)

groups_of : List Text → Option (List Text)
unfolding pieces
groups_of (whole ∷ []) = some (pieces whole)
groups_of (front ∷ back ∷ []) =
    let head = pieces front in
    let tail = pieces back in
    some (head ++ (replicate (8 - length head - length tail) (b'0' ∷ []) ++ tail))
groups_of _ = none

-- `parseInt(g || '0', 16)`
hextet : Text → Option ℕ
hextet [] = some 0
hextet (c ∷ s) = parse_hex (c ∷ s)

-- All of them, if none is NaN or above 0xffff.
hextets : List Text → Option (List ℕ)
unfolding hextet
hextets [] = some []
hextets (g ∷ gs) = elim (hextet g) [
  | none ↦ none
  | some n ↦ elim (hextets gs) [
    | none ↦ none
    | some ns ↦ if leb n 0xffff then some (n ∷ ns) else none
  ]
]

eight : List Text → Option (List ℕ)
unfolding hextets
eight groups = if length groups == 8 then hextets groups else none

expand_text : Text → Option (List ℕ)
unfolding fold_v4 split_pairs groups_of eight
expand_text s = elim (fold_v4 s) [
  | none ↦ none
  | some t ↦ elim (groups_of (split_pairs false t)) [ none ↦ none | some gs ↦ eight gs ]
]

-- `ip.toLowerCase().split('%')[0]`
without_zone : Text → Text
without_zone ip = elim (split b'%' (to_lower_case ip)) [ [] ↦ [] | s ∷ _ ↦ s ]

unfoldable pub expand_v6 : Text → Option (List ℕ)
unfolding expand_text without_zone
expand_v6 ip = expand_text (without_zone ip)

-- The IPv4 address in the last two hextets; `& 0xff` is the remainder by 256.
unfoldable pub embedded_v4 : ℕ → ℕ → Text
embedded_v4 g6 g7 = dotted (g6 / 256 % 256) (g6 % 256) (g7 / 256 % 256) (g7 % 256)

unfoldable pub blocked_groups : List ℕ → Bool
blocked_groups (g0 ∷ g1 ∷ g2 ∷ g3 ∷ g4 ∷ g5 ∷ g6 ∷ g7 ∷ _) =
    let top_zero = g0 == 0 && g1 == 0 && g2 == 0 && g3 == 0 in
    if top_zero && (g4 == 0 && (g5 == 0xffff || g5 == 0))
    then is_blocked_v4 (embedded_v4 g6 g7)
    else if g0 == 0x64 && g1 == 0xff9b
    then is_blocked_v4 (embedded_v4 g6 g7)
    else if bit_and g0 0xfe00 == 0xfc00
    then true
    else if bit_and g0 0xffc0 == 0xfe80
    then true
    else false
blocked_groups _ = true

unfoldable pub is_blocked_v6 : Text → Bool
is_blocked_v6 ip = elim (expand_v6 ip) [ none ↦ true | some g ↦ blocked_groups g ]

-- `is_ip` is node's `isIP`: 4, 6, or 0 for what is no address.
unfoldable pub is_blocked_address : (Text → ℕ) → Text → Bool
is_blocked_address is_ip ip =
    if is_ip ip == 4 then is_blocked_v4 ip else if is_ip ip == 6 then is_blocked_v6 ip else true
