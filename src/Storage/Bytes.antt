-- ===== src/Storage/Bytes.antt =====
-- Contents of files as lists of bytes, and what the reads of them add up to.
use nexus_gate.Prelude.{
  ℕ, zero, suc, ◌-◌, ◌≤◌, List, [], ◌∷◌, ◌++◌, ◌≡◌, refl, arith, ap, ◌∙◌, take, length, min,
}

module _ {ℓ} {A : Type ℓ} where
  abbrev pub drop : ℕ → List A → List A
  drop zero xs = xs
  drop (suc n) [] = []
  drop (suc n) (x ∷ xs) = drop n xs

  abbrev pub concat : List (List A) → List A
  concat [] = []
  concat (xs ∷ xss) = xs ++ concat xss

  pub take-all : (n : ℕ) (xs : List A) → length xs ≤ n → take n xs ≡ xs
  take-all zero [] h = refl
  take-all (suc n) [] h = refl
  take-all zero (x ∷ xs) h = ground arith
  take-all (suc n) (x ∷ xs) h = ap (λ ys. x ∷ ys) (take-all n xs (omega arith))

  take-nil : (n : ℕ) → take {A = A} n [] ≡ []
  take-nil zero = refl
  take-nil (suc n) = refl

  -- A read of some bytes and a read of the others.
  pub take-split :
      (k n : ℕ) (xs : List A)
      → k ≤ n
      → take k xs ++ take (n - length (take k xs)) (drop (length (take k xs)) xs) ≡ take n xs
  take-split zero n xs h = let none_read : n - 0 ≡ n = omega arith in ap (λ m. take m xs) none_read
  take-split (suc k) zero xs h = ground arith
  take-split (suc k) (suc n) [] h = take-nil (suc n - 0)
  take-split (suc k) (suc n) (x ∷ xs) h =
      let l = length (take k xs) in
      let less : suc n - suc l ≡ n - l = omega arith in
      ap (λ ys. x ∷ ys)
        (ap (λ m. take k xs ++ take m (drop l xs)) less ∙ take-split k n xs (omega arith))

  pub length-take : (n : ℕ) (xs : List A) → length (take n xs) ≡ min n (length xs)
  length-take zero xs = omega arith
  length-take (suc n) [] = omega arith
  length-take (suc n) (x ∷ xs) = omega (arith, length-take n xs)

  pub length-drop : (n : ℕ) (xs : List A) → length (drop n xs) ≡ length xs - n
  length-drop zero xs = omega arith
  length-drop (suc n) [] = omega arith
  length-drop (suc n) (x ∷ xs) = omega (arith, length-drop n xs)
