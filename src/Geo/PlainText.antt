-- ===== src/Geo/PlainText.antt =====
-- modules/geo/text.ts: what is left of text lifted off a fetched page.
pub mod Markup
use ai_search_api.Base.{
  ℕ, Bool, true, false, ◌&&◌, ◌||◌, [], ◌∷◌, map, ltb, ◌==◌, if◌then◌else◌, take, any,
}
use ai_search_api.Base.Text.{Text, is_space, trim}

abbrev pub has : ℕ → Text → Bool
has c s = any (λ x. x == c) s

-- `input.replace(/<[^>]*>/g, ' ')`; the flag says that a tag is open, and one opens only where it
-- will be closed.
unfoldable pub strip_tags : Bool → Text → Text
strip_tags inside [] = []
strip_tags true (c ∷ s) = elim (c == 62) [
  | true ↦ 32 ∷ strip_tags false s
  | false ↦ strip_tags true s
]
strip_tags false (c ∷ s) = elim (c == 60 && has 62 s) [
  | true ↦ strip_tags true s
  | false ↦ c ∷ strip_tags false s
]

-- Control characters become spaces.
abbrev pub printable : ℕ → ℕ
printable c = if ltb c 0x20 || c == 0x7f then 32 else c

abbrev pub begins_with_space : Text → Bool
begins_with_space [] = false
begins_with_space (c ∷ s) = is_space c

-- `out.replace(/\s+/g, ' ')`: the last unit of a run stands for the run.
unfoldable pub collapse : Text → Text
collapse [] = []
collapse (c ∷ s) =
    let rest = collapse s in
    if is_space c then (if begins_with_space s then rest else 32 ∷ rest) else c ∷ rest

unfoldable pub plain_text : Text → ℕ → Text
unfolding strip_tags collapse
plain_text input max = take max (trim (collapse (map printable (strip_tags false input))))
