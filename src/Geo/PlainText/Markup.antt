-- ===== src/Geo/PlainText/Markup.antt =====
-- modules/geo/text.ts: no markup and no control character is left.
use ai_search_api.Base.{
  ℕ, zero, suc, ◌≤◌, ◌≡◌, refl, Bool, true, false, not, ◌&&◌, ◌||◌, [], ◌∷◌, map, arith, ltb, leb,
  ◌==◌, if◌then◌else◌, Bool-cases, length, take, all, length-take,
}
use ai_search_api.Base.Text.{Text, is_space, trim, trim_start, trim_end}
use ai_search_api.Geo.PlainText.{
  has, strip_tags, printable, begins_with_space, collapse, plain_text,
}

-- No `<` has a `>` after it.
abbrev pub has_no_tag : Text → Bool
has_no_tag [] = true
has_no_tag (c ∷ s) = not (c == 60 && has 62 s) && has_no_tag s

abbrev pub is_no_ascii_control : ℕ → Bool
is_no_ascii_control c = leb 0x20 c && not (c == 0x7f)

-- The second text is the first with units dropped or made spaces.
pub data Thin : Text → Text → Type 0 where
  done : Thin [] []
  skip : (c : ℕ) {s t : Text} → Thin s t → Thin (c ∷ s) t
  same : (c : ℕ) {s t : Text} → Thin s t → Thin (c ∷ s) (c ∷ t)
  space : (c : ℕ) {s t : Text} → Thin s t → Thin (c ∷ s) (32 ∷ t)

Thin-has : {s t : Text} → Thin s t → has 62 s ≡ false → has 62 t ≡ false
Thin-has done h = h
Thin-has (skip c r) h = ground (arith, Thin-has r)
Thin-has (same c r) h = ground (arith, Thin-has r)
Thin-has (space c r) h = ground (arith, Thin-has r)

Thin-has_no_tag : {s t : Text} → Thin s t → has_no_tag s ≡ true → has_no_tag t ≡ true
Thin-has_no_tag done h = h
Thin-has_no_tag (skip c r) h = ground (arith, Thin-has_no_tag r)
Thin-has_no_tag (same c {s} {t} r) h =
    ground (arith, Thin-has_no_tag r, Thin-has r, Bool-cases (has 62 s))
Thin-has_no_tag (space c r) h = ground (arith, Thin-has_no_tag r)

Thin-is_no_ascii_control :
    {s t : Text} → Thin s t → all is_no_ascii_control s ≡ true → all is_no_ascii_control t ≡ true
Thin-is_no_ascii_control done h = h
Thin-is_no_ascii_control (skip c r) h = ground (arith, Thin-is_no_ascii_control r)
Thin-is_no_ascii_control (same c r) h = ground (arith, Thin-is_no_ascii_control r)
Thin-is_no_ascii_control (space c r) h = ground (arith, Thin-is_no_ascii_control r)

Thin-refl : (s : Text) → Thin s s
Thin-refl [] = done
Thin-refl (c ∷ s) = same c (Thin-refl s)

Thin-none : (s : Text) → Thin s []
Thin-none [] = done
Thin-none (c ∷ s) = skip c (Thin-none s)

Thin-take : (n : ℕ) (s : Text) → Thin s (take n s)
Thin-take zero s = Thin-none s
Thin-take (suc n) [] = done
Thin-take (suc n) (c ∷ s) = same c (Thin-take n s)

Thin-if : (b : Bool) {s t u : Text} → Thin s t → Thin s u → Thin s (if b then t else u)
Thin-if true r q = r
Thin-if false r q = q

Thin-head : (b : Bool) (c : ℕ) {s t : Text} → Thin s t → Thin (c ∷ s) ((if b then 32 else c) ∷ t)
Thin-head true c r = space c r
Thin-head false c r = same c r

Thin-trim_start : (s : Text) → Thin s (trim_start s)
unfolding trim_start
Thin-trim_start [] = done
Thin-trim_start (c ∷ s) = Thin-if (is_space c) (skip c (Thin-trim_start s)) (Thin-refl (c ∷ s))

Thin-end :
    (c : ℕ) (t : Text) {s : Text}
    → Thin s t
    → Thin (c ∷ s) (elim t [ [] ↦ if is_space c then [] else c ∷ [] | d ∷ r ↦ c ∷ d ∷ r ])
Thin-end c [] r = Thin-if (is_space c) (skip c r) (same c r)
Thin-end c (d ∷ t) r = same c r

Thin-trim_end : (s : Text) → Thin s (trim_end s)
unfolding trim_end
Thin-trim_end [] = done
Thin-trim_end (c ∷ s) = Thin-end c (trim_end s) (Thin-trim_end s)

Thin-collapse : (s : Text) → Thin s (collapse s)
unfolding collapse
Thin-collapse [] = done
Thin-collapse (c ∷ s) =
    Thin-if (is_space c)
      (Thin-if (begins_with_space s) (skip c (Thin-collapse s)) (space c (Thin-collapse s)))
      (same c (Thin-collapse s))

has-strip_tags : (b : Bool) (s : Text) → has 62 s ≡ false → has 62 (strip_tags b s) ≡ false
unfolding strip_tags
has-strip_tags b [] h = refl
has-strip_tags true (c ∷ s) h = ground (arith, has-strip_tags true s, has-strip_tags false s)
has-strip_tags false (c ∷ s) h = ground (arith, has-strip_tags true s, has-strip_tags false s)

has_no_tag-strip_tags : (b : Bool) (s : Text) → has_no_tag (strip_tags b s) ≡ true
unfolding strip_tags
has_no_tag-strip_tags b [] = refl
has_no_tag-strip_tags true (c ∷ s) =
    ground (arith, has_no_tag-strip_tags true s, has_no_tag-strip_tags false s)
has_no_tag-strip_tags false (c ∷ s) =
    ground
      (arith, has_no_tag-strip_tags true s, has_no_tag-strip_tags false s, has-strip_tags false s)

Thin-printable : (s : Text) → Thin s (map printable s)
Thin-printable [] = done
Thin-printable (c ∷ s) = Thin-head (ltb c 0x20 || c == 0x7f) c (Thin-printable s)

all-is_no_ascii_control : (s : Text) → all is_no_ascii_control (map printable s) ≡ true
all-is_no_ascii_control [] = refl
all-is_no_ascii_control (c ∷ s) = ground (arith, all-is_no_ascii_control s)

-- What `plainText` gives is at most `max` units long, has no ASCII control character (no unit below
-- 32 and no DEL), and has no `<` that a later `>` would close.
pub plain_text_safe :
    (input : Text) (max : ℕ)
    → length (plain_text input max) ≤ max
      × all is_no_ascii_control (plain_text input max) ≡ true
      × has_no_tag (plain_text input max) ≡ true
unfolding plain_text trim
plain_text_safe input max =
    let stripped = strip_tags false input in
    let shown = map printable stripped in
    let flat = collapse shown in
    let started = trim_start flat in
    let trimmed = trim_end started in
    (
      omega (arith, length-take max trimmed),
      Thin-is_no_ascii_control (Thin-take max trimmed) (
          Thin-is_no_ascii_control (Thin-trim_end started) (
            Thin-is_no_ascii_control (Thin-trim_start flat)
              (Thin-is_no_ascii_control (Thin-collapse shown) (all-is_no_ascii_control stripped)))),
      Thin-has_no_tag (Thin-take max trimmed) (
          Thin-has_no_tag (Thin-trim_end started) (
            Thin-has_no_tag (Thin-trim_start flat) (
              Thin-has_no_tag (Thin-collapse shown)
                (Thin-has_no_tag (Thin-printable stripped) (has_no_tag-strip_tags false input))))),
    )
