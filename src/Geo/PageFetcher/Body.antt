-- ===== src/Geo/PageFetcher/Body.antt =====
-- The byte cap of modules/geo/page-fetcher.ts, `readCapped`.
use ai_search_api.Base.{
  ℕ, ◌+◌, ◌≤◌, Bool, ◌≡◌, refl, inl, inr, Option, none, some, List, [], ◌++◌, arith, leb,
  if◌then◌else◌, Option-cases, length, length-append,
}
use ai_search_api.Base.Text.{Text}
use ai_search_api.Geo.PageFetcher.{
  Stream, done, broken, chunk, Response, max_bytes, read_chunks, read_capped, declares_more,
}

-- The bytes of a body that ends; `none` if a read fails.
abbrev pub content : Stream → Option (List ℕ)
content done = some []
content broken = none
content (chunk value rest) = elim (content rest) [
  | none ↦ none
  | some bytes ↦ some (value ++ bytes)
]

abbrev pub within_cap : ℕ → Option (List ℕ) → Option (List ℕ)
within_cap total none = none
within_cap total (some bytes) = if leb (total + length bytes) max_bytes then some bytes else none

read_chunks-eq-within_cap :
    (total : ℕ) (s : Stream)
    → total ≤ max_bytes
    → read_chunks total s ≡ within_cap total (content s)
unfolding read_chunks
read_chunks-eq-within_cap total done h = ground arith
read_chunks-eq-within_cap total broken h = refl
read_chunks-eq-within_cap total (chunk value rest) h = elim (Option-cases (content rest)) [
  | inl e ↦ ground (arith, read_chunks-eq-within_cap (total + length value) rest)
  | inr (bytes, e) ↦
      ground
        (arith, length-append value bytes, read_chunks-eq-within_cap (total + length value) rest)
]

-- A body is returned whole exactly when every read succeeds, its length is at most 2 MiB and the
-- header declares no more than that; otherwise nothing is returned, and never a part of it.
pub read_capped_exact :
    (exceeds : Text → ℕ → Bool) (res : Response) (stream : Stream)
    → res.body ≡ some stream
    → read_capped exceeds res
      ≡ (if declares_more exceeds res.content_length then none else within_cap 0 (content stream))
unfolding read_capped
read_capped_exact exceeds res stream h =
    rw (h, read_capped, read_chunks-eq-within_cap 0 stream (omega arith)) refl
