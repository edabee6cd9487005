-- ===== src/Geo/Address/Expand.antt =====
-- The bounds of `expandV6` of modules/geo/url-guard.ts.
use ai_search_api.Base.{
  ℕ, ◌≤◌, ◌≡◌, inl, inr, false, some, List, [], ◌∷◌, arith, Option-cases, length, All,
}
use ai_search_api.Base.Text.{Text}
use ai_search_api.Geo.Address.{
  expand_v6, expand_text, without_zone, fold_v4, groups_of, split_pairs, eight, hextets, hextet,
}

abbrev pub AllHextets : List ℕ → Type 0
AllHextets = All (λ (n : ℕ). n ≤ 65535)

hextets_bounds :
    (groups : List Text) (ns : List ℕ)
    → hextets groups ≡ some ns
    → (length ns ≡ length groups) × AllHextets ns
unfolding hextets
hextets_bounds [] ns h = ground arith
hextets_bounds (g ∷ gs) ns h = elim (Option-cases (hextet g)) [
  | inl e ↦ ground arith
  | inr (n, e) ↦ elim (Option-cases (hextets gs)) [
    | inl e' ↦ ground arith
    | inr (ms, e') ↦ ground (arith, hextets_bounds gs ms e')
  ]
]

eight_bounds :
    (groups : List Text) (ns : List ℕ) → eight groups ≡ some ns → (length ns ≡ 8) × AllHextets ns
unfolding eight
eight_bounds groups ns h = ground (arith, hextets_bounds groups ns)

expand_text_bounds :
    (s : Text) (ns : List ℕ) → expand_text s ≡ some ns → (length ns ≡ 8) × AllHextets ns
unfolding expand_text
expand_text_bounds s ns h = elim (Option-cases (fold_v4 s)) [
  | inl e ↦ ground arith
  | inr (t, e) ↦ elim (Option-cases (groups_of (split_pairs false t))) [
    | inl e' ↦ ground arith
    | inr (gs, e') ↦ eight_bounds gs ns (ground arith)
  ]
]

-- What `expandV6` returns is eight numbers of sixteen bits.
pub expand_v6_bounds :
    (ip : Text) (ns : List ℕ) → expand_v6 ip ≡ some ns → (length ns ≡ 8) × AllHextets ns
unfolding expand_v6
expand_v6_bounds ip ns h = expand_text_bounds (without_zone ip) ns h
