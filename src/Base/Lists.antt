-- ===== src/Base/Lists.antt =====
-- Lists measured and indexed by native numbers, under the library's names, and predicates on lists.
use Prim.Native.Nat.{ℕ, zero, suc, ◌+◌, ◌-◌, ◌≤◌, min}
use mathlib.Core.Path.{◌≡◌, refl, ap}
use mathlib.Core.List.{List, [], ◌∷◌, ◌++◌, map}
use mathlib.Core.Bool.{Bool, true, false, ◌||◌}
use mathlib.Core.Option.{Option, none, some}
use native.Mathlib.Omega.{arith}
use mathlib.Core.Logic.{◌↔◌}
use bitprim_network.Base.Tests.{if◌then◌else◌, ◌==◌}

module _ {ℓ} {A : Type ℓ} where
  abbrev pub length : List A → ℕ
  length [] = 0
  length (x ∷ xs) = suc (length xs)

  abbrev pub get_elem? : List A → ℕ → Option A
  get_elem? [] i = none
  get_elem? (x ∷ xs) zero = some x
  get_elem? (x ∷ xs) (suc i) = get_elem? xs i

  abbrev pub take : ℕ → List A → List A
  take zero xs = []
  take (suc n) [] = []
  take (suc n) (x ∷ xs) = x ∷ take n xs

  abbrev pub drop : ℕ → List A → List A
  drop zero xs = xs
  drop (suc n) [] = []
  drop (suc n) (x ∷ xs) = drop n xs

  -- The list without its element at an index; out of range it is the whole list.
  abbrev pub erase_at : ℕ → List A → List A
  erase_at i [] = []
  erase_at zero (x ∷ xs) = xs
  erase_at (suc i) (x ∷ xs) = x ∷ erase_at i xs

  abbrev pub tail : List A → List A
  tail [] = []
  tail (x ∷ xs) = xs

  abbrev pub any : (A → Bool) → List A → Bool
  any p [] = false
  any p (x ∷ xs) = p x || any p xs

  -- The elements that pass a test.
  abbrev pub keep : (A → Bool) → List A → List A
  keep p [] = []
  keep p (x ∷ xs) = if p x then x ∷ keep p xs else keep p xs

  -- Every element satisfies the predicate.
  abbrev pub All {κ} : (A → Type κ) → List A → Type κ
  All P [] = Unit
  All P (x ∷ xs) = P x × All P xs

module _ {ℓ} {A : Type ℓ} where
  pub length-append : (xs ys : List A) → length (xs ++ ys) ≡ length xs + length ys
  length-append [] ys = omega arith
  length-append (x ∷ xs) ys = omega (arith, length-append xs ys)

  pub length-snoc : (x : A) (xs : List A) → length (xs ++ x ∷ []) ≡ length xs + 1
  length-snoc x [] = refl
  length-snoc x (y ∷ xs) = omega (arith, length-snoc x xs)

  pub length-eq-zero : (xs : List A) → ((length xs == 0) ≡ true) ↔ (xs ≡ [])
  length-eq-zero [] = (λ e. refl, λ e. refl)
  length-eq-zero (x ∷ xs) = (λ e. absurd (ground arith), λ e. absurd (cc))

  pub length-take : (n : ℕ) (xs : List A) → length (take n xs) ≡ min n (length xs)
  length-take zero xs = omega arith
  length-take (suc n) [] = omega arith
  length-take (suc n) (x ∷ xs) = omega (arith, length-take n xs)

  pub length-erase_at-le : (i : ℕ) (xs : List A) → length (erase_at i xs) ≤ length xs
  length-erase_at-le i [] = omega arith
  length-erase_at-le zero (x ∷ xs) = omega arith
  length-erase_at-le (suc i) (x ∷ xs) = omega (arith, length-erase_at-le i xs)

  pub length-tail : (xs : List A) → length (tail xs) ≡ length xs - 1
  length-tail [] = omega arith
  length-tail (x ∷ xs) = omega arith

  pub length-map {κ} : {B : Type κ} (xs : List A) (f : A → B) → length (map f xs) ≡ length xs
  length-map [] f = refl
  length-map (x ∷ xs) f = ap suc (length-map xs f)

  pub All-append {κ} : (P : A → Type κ) (xs ys : List A) → All P xs → All P ys → All P (xs ++ ys)
  All-append P [] ys hx hy = hy
  All-append P (x ∷ xs) ys hx hy = (hx.0, All-append P xs ys hx.1 hy)

  pub All-take {κ} : (P : A → Type κ) (n : ℕ) (xs : List A) → All P xs → All P (take n xs)
  All-take P zero xs h = tt
  All-take P (suc n) [] h = tt
  All-take P (suc n) (x ∷ xs) h = (h.0, All-take P n xs h.1)

module _ {ℓ} {A : Type ℓ} where
  -- How many elements pass a test.
  abbrev pub count_by : (A → Bool) → List A → ℕ
  count_by p [] = 0
  count_by p (x ∷ xs) = (if p x then 1 else 0) + count_by p xs

  pub count_by-erase_at :
      (p : A → Bool) (i : ℕ) (xs : List A) {x : A}
      → get_elem? xs i ≡ some x
      → count_by p (erase_at i xs) + (if p x then 1 else 0) ≡ count_by p xs
  count_by-erase_at p i [] e = ground arith
  count_by-erase_at p zero (y ∷ xs) e = ground arith
  count_by-erase_at p (suc i) (y ∷ xs) e = ground (arith, count_by-erase_at p i xs e)

  -- Nothing passes a test that no element is counted by.
  pub any-count_by : (p : A → Bool) (xs : List A) → count_by p xs ≡ 0 → any p xs ≡ false
  any-count_by p [] e = refl
  any-count_by p (x ∷ xs) e = ground (arith, any-count_by p xs)

  pub count_by-snoc :
      (p : A → Bool) (x : A) (xs : List A)
      → count_by p (xs ++ x ∷ []) ≡ count_by p xs + (if p x then 1 else 0)
  count_by-snoc p x [] = omega arith
  count_by-snoc p x (y ∷ xs) = omega (arith, count_by-snoc p x xs)

  pub count_by-true : (xs : List A) → count_by (λ _. true) xs ≡ length xs
  count_by-true [] = refl
  count_by-true (x ∷ xs) = omega (arith, count_by-true xs)

  pub length-erase_at :
      (i : ℕ) (xs : List A) {x : A}
      → get_elem? xs i ≡ some x
      → length (erase_at i xs) + 1 ≡ length xs
  length-erase_at i [] e = ground arith
  length-erase_at zero (x ∷ xs) e = omega arith
  length-erase_at (suc i) (x ∷ xs) e = omega (arith, length-erase_at i xs e)

  -- The sum of the weights of the elements.
  abbrev pub total : (A → ℕ) → List A → ℕ
  total weight [] = 0
  total weight (x ∷ xs) = weight x + total weight xs

  pub total-erase_at :
      (weight : A → ℕ) (i : ℕ) (xs : List A) {x : A}
      → get_elem? xs i ≡ some x
      → total weight (erase_at i xs) + weight x ≡ total weight xs
  total-erase_at weight i [] e = ground arith
  total-erase_at weight zero (y ∷ xs) e = ground arith
  total-erase_at weight (suc i) (y ∷ xs) e = ground (arith, total-erase_at weight i xs e)
