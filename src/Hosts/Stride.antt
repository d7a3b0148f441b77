-- ===== src/Hosts/Stride.antt =====
-- Every step-th element of a list: which addresses the loop of `hosts::store` looks at.
use bitprim_network.Base.{
  ℕ, zero, suc, ◌+◌, ◌-◌, ◌*◌, ◌≤◌, ◌<◌, ◌≡◌, refl, sym, ap, ◌∙◌, List, [], ◌∷◌, some, arith,
  length, get_elem?, take, drop,
}

module _ {ℓ} {A : Type ℓ} where
  -- The first `skip` elements are passed over; then one is taken and `step - 1` are passed over.
  unfoldable pub stride : ℕ → ℕ → List A → List A
  stride skip step [] = []
  stride zero step (x ∷ xs) = x ∷ stride (step - 1) step xs
  stride (suc skip) step (x ∷ xs) = stride skip step xs

  pub length-stride :
      (skip step : ℕ) (xs : List A)
      → 1 ≤ step
      → length xs ≤ length (stride skip step xs) * step + skip
  unfolding stride
  length-stride skip step [] h = omega arith
  length-stride zero step (x ∷ xs) h = omega (arith, length-stride (step - 1) step xs h)
  length-stride (suc skip) step (x ∷ xs) h = omega (arith, length-stride skip step xs h)

  pub stride-drop :
      (skip step : ℕ) (xs : List A) → stride skip step xs ≡ stride 0 step (drop skip xs)
  unfolding stride
  stride-drop zero step xs = refl
  stride-drop (suc skip) step [] = refl
  stride-drop (suc skip) step (x ∷ xs) = stride-drop skip step xs

  pub drop-past : (n : ℕ) (xs : List A) → length xs ≤ n → drop n xs ≡ []
  drop-past zero [] h = refl
  drop-past zero (x ∷ xs) h = absurd (omega arith)
  drop-past (suc n) [] h = refl
  drop-past (suc n) (x ∷ xs) h = drop-past n xs (omega arith)

  pub drop-drop : (m n : ℕ) (xs : List A) → drop m (drop n xs) ≡ drop (n + m) xs
  drop-drop m zero xs = ap (λ k. drop k xs) (omega arith)
  drop-drop m (suc n) [] =
      drop-past m [] (omega arith) ∙ sym (drop-past (suc n + m) [] (omega arith))
  drop-drop m (suc n) (x ∷ xs) =
      let e : suc (n + m) ≡ suc n + m = omega arith in
      drop-drop m n xs ∙ ap (λ k. drop k (x ∷ xs)) e

  -- Within bounds an index reads the head of what is left from there.
  pub drop-take-cons :
      (i limit : ℕ) (xs : List A)
      → i < limit
      → limit ≤ length xs
      → (x : A) × (get_elem? xs i ≡ some x)
        × (drop i (take limit xs) ≡ x ∷ drop (suc i) (take limit xs))
  drop-take-cons i zero xs h k = absurd (omega arith)
  drop-take-cons i (suc limit) [] h k = absurd (omega arith)
  drop-take-cons zero (suc limit) (x ∷ xs) h k = (x, refl, refl)
  drop-take-cons (suc i) (suc limit) (x ∷ xs) h k =
      drop-take-cons i limit xs (omega arith) (omega arith)
