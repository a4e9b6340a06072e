-- ===== src/Base/Lists.antt =====
-- Lists measured by native numbers, under the library's names, and predicates on their elements.
use Prim.Native.Nat.{ℕ, zero, suc, ◌+◌, ◌-◌, ◌≤◌, min}
use mathlib.Core.Path.{◌≡◌, refl, ap}
use mathlib.Core.List.{List, [], ◌∷◌, ◌++◌}
use native.Mathlib.Omega.{arith}

module _ {ℓ} {A : Type ℓ} where
  abbrev pub length : List A → ℕ
  length [] = 0
  length (x ∷ xs) = suc (length xs)

  abbrev pub take : ℕ → List A → List A
  take zero xs = []
  take (suc n) [] = []
  take (suc n) (x ∷ xs) = x ∷ take n xs

  abbrev pub drop : ℕ → List A → List A
  drop zero xs = xs
  drop (suc n) [] = []
  drop (suc n) (x ∷ xs) = drop n xs

  pub length-append : (xs ys : List A) → length (xs ++ ys) ≡ length xs + length ys
  length-append [] ys = omega arith
  length-append (x ∷ xs) ys = omega (arith, length-append xs ys)

  pub take-append-drop : (n : ℕ) (xs : List A) → take n xs ++ drop n xs ≡ xs
  take-append-drop zero xs = refl
  take-append-drop (suc n) [] = refl
  take-append-drop (suc n) (x ∷ xs) = ap (◌∷◌ x) (take-append-drop n xs)

  pub length-take : (n : ℕ) (xs : List A) → length (take n xs) ≡ min n (length xs)
  length-take zero xs = omega arith
  length-take (suc n) [] = omega arith
  length-take (suc n) (x ∷ xs) = omega (arith, length-take n xs)

  pub length-drop : (n : ℕ) (xs : List A) → length (drop n xs) ≡ length xs - n
  length-drop zero xs = omega arith
  length-drop (suc n) [] = omega arith
  length-drop (suc n) (x ∷ xs) = omega (arith, length-drop n xs)

  pub take-of-le : (n : ℕ) (xs : List A) → length xs ≤ n → take n xs ≡ xs
  take-of-le zero [] h = refl
  take-of-le zero (x ∷ xs) h = absurd (omega arith)
  take-of-le (suc n) [] h = refl
  take-of-le (suc n) (x ∷ xs) h = ap (◌∷◌ x) (take-of-le n xs (omega arith))

  -- Two pieces cut one after the other are one piece.
  pub take-add : (m n k : ℕ) (xs : List A) → m + n ≡ k → take m xs ++ take n (drop m xs) ≡ take k xs
  take-add zero n k xs e = let e' : n ≡ k = omega arith in ap (λ j. take j xs) e'
  take-add (suc m) zero zero [] e = refl
  take-add (suc m) zero (suc k) [] e = refl
  take-add (suc m) (suc n) zero [] e = refl
  take-add (suc m) (suc n) (suc k) [] e = refl
  take-add (suc m) n zero (x ∷ xs) e = absurd (omega arith)
  take-add (suc m) n (suc k) (x ∷ xs) e = ap (◌∷◌ x) (take-add m n k xs (omega arith))

  pub drop-drop : (m n k : ℕ) (xs : List A) → m + n ≡ k → drop n (drop m xs) ≡ drop k xs
  drop-drop zero n k xs e = let e' : n ≡ k = omega arith in ap (λ j. drop j xs) e'
  drop-drop (suc m) zero zero [] e = refl
  drop-drop (suc m) zero (suc k) [] e = refl
  drop-drop (suc m) (suc n) zero [] e = refl
  drop-drop (suc m) (suc n) (suc k) [] e = refl
  drop-drop (suc m) n zero (x ∷ xs) e = absurd (omega arith)
  drop-drop (suc m) n (suc k) (x ∷ xs) e = drop-drop m n k xs (omega arith)

  pub take-take : (j n : ℕ) (xs : List A) → j ≤ n → take j (take n xs) ≡ take j xs
  take-take zero n xs h = refl
  take-take (suc j) zero xs h = absurd (omega arith)
  take-take (suc j) (suc n) [] h = refl
  take-take (suc j) (suc n) (x ∷ xs) h = ap (◌∷◌ x) (take-take j n xs (omega arith))

  -- What a piece takes is what the rest drops, also at the end of the list.
  pub drop-length-take : (n : ℕ) (xs : List A) → drop (length (take n xs)) xs ≡ drop n xs
  drop-length-take zero xs = refl
  drop-length-take (suc n) [] = refl
  drop-length-take (suc n) (x ∷ xs) = drop-length-take n xs

module _ {ℓ κ} {A : Type ℓ} (P : A → Type κ) where
  abbrev pub All : List A → Type κ
  All [] = Unit
  All (x ∷ xs) = P x × All xs

  pub All-append : (xs ys : List A) → All xs → All ys → All (xs ++ ys)
  All-append [] ys _ hy = hy
  All-append (x ∷ xs) ys (px, hx) hy = (px, All-append xs ys hx hy)

  pub All-suffix : (xs ys : List A) → All (xs ++ ys) → All ys
  All-suffix [] ys h = h
  All-suffix (x ∷ xs) ys h = All-suffix xs ys h.1
