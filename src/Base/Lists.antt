-- ===== src/Base/Lists.antt =====
-- Lists measured by native numbers, the queries on rows, and predicates over every element.
use Prim.Native.Nat.{ℕ, zero, suc, ◌+◌, min}
use mathlib.Core.Path.{◌≡◌, refl}
use mathlib.Core.Bool.{Bool, not, true, false, ◌&&◌, ◌||◌}
use mathlib.Core.List.{List, [], ◌∷◌, ◌++◌}
use mathlib.Core.Option.{Option, none, some}
use native.Mathlib.Omega.{arith}
use ai_search_api.Base.Tests.{if◌then◌else◌, ltb}

module _ {ℓ} {A : Type ℓ} where
  abbrev pub length : List A → ℕ
  length [] = 0
  length (x ∷ xs) = suc (length xs)

  abbrev pub take : ℕ → List A → List A
  take zero xs = []
  take (suc n) [] = []
  take (suc n) (x ∷ xs) = x ∷ take n xs

  abbrev pub drop : ℕ → List A → List A
  drop zero xs = xs
  drop (suc n) [] = []
  drop (suc n) (x ∷ xs) = drop n xs

  abbrev pub replicate : ℕ → A → List A
  replicate zero a = []
  replicate (suc n) a = a ∷ replicate n a

  -- `Array.prototype.some` and `every`
  abbrev pub any : (A → Bool) → List A → Bool
  any p [] = false
  any p (x ∷ xs) = p x || any p xs

  abbrev pub all : (A → Bool) → List A → Bool
  all p [] = true
  all p (x ∷ xs) = p x && all p xs

  -- What a query with a condition selects.
  abbrev pub first : (A → Bool) → List A → Option A
  first p [] = none
  first p (x ∷ xs) = if p x then some x else first p xs

  abbrev pub keep : (A → Bool) → List A → List A
  keep p [] = []
  keep p (x ∷ xs) = let rest = keep p xs in if p x then x ∷ rest else rest

  abbrev pub count : (A → Bool) → List A → ℕ
  count p [] = 0
  count p (x ∷ xs) = let rest = count p xs in if p x then suc rest else rest

  -- Every row that meets the condition is changed.
  abbrev pub change : (A → Bool) → (A → A) → List A → List A
  change p f [] = []
  change p f (x ∷ xs) = (if p x then f x else x) ∷ change p f xs

module _ {ℓ κ} {A : Type ℓ} (P : A → Type κ) where
  abbrev pub All : List A → Type κ
  All [] = Unit
  All (x ∷ xs) = P x × All xs

module _ {ℓ} {A : Type ℓ} where
  pub length-append : (xs ys : List A) → length (xs ++ ys) ≡ length xs + length ys
  length-append [] ys = omega arith
  length-append (x ∷ xs) ys = omega (arith, length-append xs ys)

  pub length-take : (n : ℕ) (xs : List A) → length (take n xs) ≡ min n (length xs)
  length-take zero xs = omega arith
  length-take (suc n) [] = omega arith
  length-take (suc n) (x ∷ xs) = omega (arith, length-take n xs)

  pub count-append : (p : A → Bool) (xs ys : List A) → count p (xs ++ ys) ≡ count p xs + count p ys
  count-append p [] ys = omega arith
  count-append p (x ∷ xs) ys = ground (arith, count-append p xs ys)

  pub length-keep : (p : A → Bool) (xs : List A) → length (keep p xs) ≡ count p xs
  length-keep p [] = refl
  length-keep p (x ∷ xs) = ground (arith, length-keep p xs)

module _ {ℓ} {A : Type ℓ} where
  pub change-none : (p : A → Bool) (f : A → A) (xs : List A) → count p xs ≡ 0 → change p f xs ≡ xs
  change-none p f [] h = refl
  change-none p f (x ∷ xs) h = ground (arith, change-none p f xs)

  -- The first row that meets a test which the change leaves alone is the changed first row.
  pub first-change :
      (q p : A → Bool) (f : A → A)
      → ((x : A) → q (f x) ≡ q x)
      → (xs : List A) (a : A) → first q xs ≡ some a
      → first q (change p f xs) ≡ some (if p a then f a else a)
  first-change q p f same [] a h = cc
  first-change q p f same (x ∷ xs) a h = ground (arith, same x, first-change q p f same xs a)

  pub count-first :
      (q p : A → Bool) (xs : List A) (a : A)
      → first q xs ≡ some a
      → p a ≡ true
      → ltb 0 (count p xs) ≡ true
  count-first q p [] a h e = cc
  count-first q p (x ∷ xs) a h e = ground (arith, count-first q p xs a)

  -- A narrower test that the first row of a wider one meets finds the same row.
  pub first-narrow :
      (q p : A → Bool)
      → ((x : A) → q x ≡ true → p x ≡ true)
      → (xs : List A) (a : A) → first p xs ≡ some a
      → q a ≡ true
      → first q xs ≡ some a
  first-narrow q p wider [] a h e = cc
  first-narrow q p wider (x ∷ xs) a h e = ground (arith, wider x, first-narrow q p wider xs a)

  pub first_sound : (q : A → Bool) (xs : List A) (a : A) → first q xs ≡ some a → q a ≡ true
  first_sound q [] a h = cc
  first_sound q (x ∷ xs) a h = ground (arith, first_sound q xs a)

  pub first-append :
      (q : A → Bool) (xs ys : List A) (a : A) → first q xs ≡ some a → first q (xs ++ ys) ≡ some a
  first-append q [] ys a h = cc
  first-append q (x ∷ xs) ys a h = ground (arith, first-append q xs ys a)

  pub first-append_none :
      (q : A → Bool) (xs ys : List A) → count q xs ≡ 0 → first q (xs ++ ys) ≡ first q ys
  first-append_none q [] ys h = refl
  first-append_none q (x ∷ xs) ys h = ground (arith, first-append_none q xs ys)

  -- A write after which no row meets the condition any more.
  pub count-change :
      (p : A → Bool) (f : A → A)
      → ((x : A) → p x ≡ true → p (f x) ≡ false)
      → (xs : List A) → count p (change p f xs) ≡ 0
  count-change p f off [] = refl
  count-change p f off (x ∷ xs) = ground (arith, off x, count-change p f off xs)

  -- A count that a write leaves alone.
  pub count-change_same :
      (q p : A → Bool) (f : A → A)
      → ((x : A) → q (f x) ≡ q x)
      → (xs : List A) → count q (change p f xs) ≡ count q xs
  count-change_same q p f same [] = refl
  count-change_same q p f same (x ∷ xs) = ground (arith, same x, count-change_same q p f same xs)

  pub first-keep :
      (q p : A → Bool) (xs : List A) (a : A)
      → first q xs ≡ some a
      → p a ≡ true
      → first q (keep p xs) ≡ some a
  first-keep q p [] a h e = cc
  first-keep q p (x ∷ xs) a h e = ground (arith, first-keep q p xs a)

  pub count-keep :
      (p : A → Bool) (xs : List A) → count p xs + length (keep (λ x. not (p x)) xs) ≡ length xs
  count-keep p [] = omega arith
  count-keep p (x ∷ xs) = ground (arith, count-keep p xs)
