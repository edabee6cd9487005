-- ===== src/Core/ContentDisposition/Safety.antt =====
-- core/common/utils/content-disposition.ts: no file name breaks out of the header.
use ai_search_api.Base.{ℕ, ◌≡◌, Bool, true, not, ◌&&◌, Option, none, some, ◌==◌, all}
use ai_search_api.Base.Text.{Text}
use ai_search_api.Core.ContentDisposition.{is_printable}

-- A printable ASCII character that is no quote and no backslash.
abbrev pub is_inert : ℕ → Bool
is_inert c = is_printable c && not (c == 34) && not (c == 92)

abbrev IsInert : Option Text → Type 0
IsInert none = Unit
IsInert (some t) = all is_inert t ≡ true
