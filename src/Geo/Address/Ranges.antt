-- ===== src/Geo/Address/Ranges.antt =====
-- `isBlockedV4` of modules/geo/url-guard.ts against a table of address ranges, and `isBlockedV6`
-- on the eight hextets that `expandV6` yields.
use ai_search_api.Base.{
  ℕ, ◌+◌, ◌*◌, ◌/◌, ◌%◌, ◌^◌, ◌≤◌, ◌<◌, ◌≡◌, ap, ◌∙◌, Bool, true, false, ◌&&◌, ◌||◌, some, List, [],
  ◌∷◌, map, arith, leb, ◌==◌, if◌then◌else◌, any,
}
use mathlib.Core.Path.{ap₂}
use mathlib.Core.Bool.{or_assoc}
use ai_search_api.Base.Bits.{mask_fe00, mask_ffc0}
use ai_search_api.Base.Text.{split}
use ai_search_api.Geo.Numeral.{
  number, show, number-show, show-IsPlain, split-plain, split-plain_last,
}
use ai_search_api.Geo.Address.{
  octets, blocked_octets, is_blocked_v4, dotted, embedded_v4, blocked_groups,
}

-- An address as one 32-bit number.
abbrev pub quad : ℕ → ℕ → ℕ → ℕ → ℕ
quad a b c d = a * 16777216 + b * 65536 + c * 256 + d

-- A range `base/prefix` as its first address and the number of free low bits.
abbrev pub in_range : ℕ → ℕ × ℕ → Bool
in_range v (base, free) = v / 2 ^ free == base / 2 ^ free

-- The special-purpose ranges that a public fetch must not reach.
abbrev pub special_ranges : List (ℕ × ℕ)
special_ranges =
    (quad 0 0 0 0, 24)
    ∷ (quad 127 0 0 0, 24)
    ∷ (quad 10 0 0 0, 24)
    ∷ (quad 172 16 0 0, 20)
    ∷ (quad 192 168 0 0, 16)
    ∷ (quad 169 254 0 0, 16)
    ∷ (quad 100 64 0 0, 22)
    ∷ (quad 198 18 0 0, 17)
    ∷ (quad 192 0 0 0, 8)
    ∷ (quad 192 88 99 0, 8)
    ∷ (quad 224 0 0 0, 29)
    ∷ []

abbrev has_prefix : List ℕ → List ℕ → Bool
has_prefix [] gs = true
has_prefix (p ∷ ps) [] = false
has_prefix (p ∷ ps) (g ∷ gs) = g == p && has_prefix ps gs

-- The addresses whose last 32 bits stand for an IPv4 address: ::ffff:0:0/96, ::/96, and those that
-- begin 64:ff9b.
abbrev pub embeds_v4 : List ℕ → Bool
embeds_v4 g =
    has_prefix (0 ∷ 0 ∷ 0 ∷ 0 ∷ 0 ∷ 0xffff ∷ []) g
    || has_prefix (0 ∷ 0 ∷ 0 ∷ 0 ∷ 0 ∷ 0 ∷ []) g
    || has_prefix (0x64 ∷ 0xff9b ∷ []) g

abbrev pub is_special : ℕ → Bool
is_special v = any (in_range v) special_ranges

module _ (a b c d : ℕ) (ha : a ≤ 255) (hb : b ≤ 255) (hc : c ≤ 255) (hd : d ≤ 255) where
  slash_8 : (n : ℕ) → (a == n) ≡ (quad a b c d / 16777216 == n)
  slash_8 n = ground arith

  slash_12 : (a == 172 && leb 16 b && leb b 31) ≡ (quad a b c d / 1048576 == 2753)
  slash_12 = ground arith

  slash_16 : (n m : ℕ) → m ≤ 255 → (a == n && b == m) ≡ (quad a b c d / 65536 == n * 256 + m)
  slash_16 n m h = ground arith

  slash_10 : (a == 100 && leb 64 b && leb b 127) ≡ (quad a b c d / 4194304 == 401)
  slash_10 = ground arith

  slash_15 : (a == 198 && (b == 18 || b == 19)) ≡ (quad a b c d / 131072 == 25353)
  slash_15 = ground arith

  slash_24 :
      (n m k : ℕ)
      → m ≤ 255
      → k ≤ 255
      → (a == n && b == m && c == k) ≡ (quad a b c d / 256 == n * 65536 + m * 256 + k)
  slash_24 n m k h h' = ground arith

  slash_3 : leb 224 a ≡ (quad a b c d / 536870912 == 7 || false)
  slash_3 = ground arith

  blocked_octets-eq-is_special : blocked_octets a b c ≡ is_special (quad a b c d)
  unfolding blocked_octets
  blocked_octets-eq-is_special = simp or_assoc (
      ap₂ ◌||◌ (slash_8 0) (
        ap₂ ◌||◌ (slash_8 127) (
          ap₂ ◌||◌ (slash_8 10) (
            ap₂ ◌||◌ slash_12 (
              ap₂ ◌||◌ (slash_16 192 168 (omega arith)) (
                ap₂ ◌||◌ (slash_16 169 254 (omega arith)) (
                  ap₂ ◌||◌ slash_10 (
                    ap₂ ◌||◌ slash_15 (
                      ap₂ ◌||◌ (slash_24 192 0 0 (omega arith) (omega arith))
                        (ap₂ ◌||◌ (slash_24 192 88 99 (omega arith) (omega arith)) slash_3))))))))))

split-dotted : (a b c d : ℕ) → split b'.' (dotted a b c d) ≡ show a ∷ show b ∷ show c ∷ show d ∷ []
unfolding dotted
split-dotted a b c d =
    split-plain b'.' (show a) _ (show-IsPlain a b'.' (omega arith))
    ∙ ap (λ l. show a ∷ l)
        (split-plain b'.' (show b) _ (show-IsPlain b b'.' (omega arith))
          ∙ ap (λ l. show b ∷ l)
              (split-plain b'.' (show c) _ (show-IsPlain c b'.' (omega arith))
                ∙ ap (λ l. show c ∷ l)
                    (split-plain_last b'.' (show d) (show-IsPlain d b'.' (omega arith)))))

numbers-dotted :
    (a b c d : ℕ)
    → map number (split b'.' (dotted a b c d)) ≡ some a ∷ some b ∷ some c ∷ some d ∷ []
numbers-dotted a b c d = rw (split-dotted a b c d) (simp number-show)

is_blocked_v4-dotted :
    (a b c d : ℕ)
    → a ≤ 255
    → b ≤ 255
    → c ≤ 255
    → d ≤ 255
    → is_blocked_v4 (dotted a b c d) ≡ blocked_octets a b c
unfolding is_blocked_v4 octets
is_blocked_v4-dotted a b c d ha hb hc hd = rw (numbers-dotted a b c d, is_blocked_v4) (ground arith)

-- The printed address a.b.c.d, with octets up to 255, is blocked exactly when the 32-bit number
-- lies in one of the eleven special-purpose ranges, each written as its first address and the
-- number of its free bits.
pub is_blocked_v4-eq-is_special :
    (a b c d : ℕ)
    → a ≤ 255
    → b ≤ 255
    → c ≤ 255
    → d ≤ 255
    → is_blocked_v4 (dotted a b c d) ≡ is_special (quad a b c d)
is_blocked_v4-eq-is_special a b c d ha hb hc hd =
    is_blocked_v4-dotted a b c d ha hb hc hd ∙ blocked_octets-eq-is_special a b c d ha hb hc hd

embedded_v4-is_special :
    (g6 g7 : ℕ)
    → g6 < 65536
    → g7 < 65536
    → is_blocked_v4 (embedded_v4 g6 g7) ≡ is_special (g6 * 65536 + g7)
unfolding embedded_v4
embedded_v4-is_special g6 g7 h6 h7 =
    let same_number : quad (g6 / 256 % 256) (g6 % 256) (g7 / 256 % 256) (g7 % 256)
        ≡ g6 * 65536 + g7 =
      omega arith in
    is_blocked_v4-eq-is_special (g6 / 256 % 256) (g6 % 256) (g7 / 256 % 256) (g7 % 256)
      (omega arith) (omega arith) (omega arith) (omega arith)
    ∙ ap is_special same_number

module _ (z0 z1 z2 z3 z4 f5 z5 n0 n1 m k x : Bool) where
  join_branches :
      (if z0 && z1 && z2 && z3 && (z4 && (f5 || z5))
        then x
        else if n0 && n1
        then x
        else if m
        then true
        else if k
        then true
        else false)
      ≡ (if (z0 && (z1 && (z2 && (z3 && (z4 && (f5 && true))))))
            || (z0 && (z1 && (z2 && (z3 && (z4 && (z5 && true))))))
            || (n0 && (n1 && true))
          then x
          else (m || k))
  join_branches = ground arith

-- On eight 16-bit groups the IPv6 guard blocks exactly this: where the address is IPv4-mapped,
-- IPv4-compatible or begins 64:ff9b, what the IPv4 range table holds of the last 32 bits, and
-- elsewhere the ranges fc00::/7 and fe80::/10.
pub blocked_groups_exact :
    (g0 g1 g2 g3 g4 g5 g6 g7 : ℕ)
    → g0 < 65536
    → g6 < 65536
    → g7 < 65536
    → blocked_groups (g0 ∷ g1 ∷ g2 ∷ g3 ∷ g4 ∷ g5 ∷ g6 ∷ g7 ∷ []) ≡ (
        if embeds_v4 (g0 ∷ g1 ∷ g2 ∷ g3 ∷ g4 ∷ g5 ∷ g6 ∷ g7 ∷ [])
        then is_special (g6 * 65536 + g7)
        else (g0 / 512 == 126 || g0 / 64 == 1018))
unfolding blocked_groups
blocked_groups_exact g0 g1 g2 g3 g4 g5 g6 g7 h0 h6 h7 =
    rw (embedded_v4-is_special g6 g7 h6 h7, mask_fe00 g0 h0, mask_ffc0 g0 h0)
      (join_branches (g0 == 0) (g1 == 0) (g2 == 0) (g3 == 0) (g4 == 0) (g5 == 0xffff) (g5 == 0)
        (g0 == 0x64) (g1 == 0xff9b) (g0 / 512 == 126) (g0 / 64 == 1018)
        (is_special (g6 * 65536 + g7)))
