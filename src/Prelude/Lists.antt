-- ===== src/Prelude/Lists.antt =====
-- Lists measured by native numbers, under the library's names, and predicates on all members.
use Prim.Native.Nat.{ℕ, zero, suc, ◌+◌, ◌-◌, ◌≤◌}
use mathlib.Core.Path.{◌≡◌, refl, ap}
use mathlib.Core.List.{List, [], ◌∷◌, ◌++◌}
use mathlib.Core.Bool.{Bool, true, false}
use mathlib.Core.Option.{Option, none, some}
use native.Mathlib.Omega.{arith}

module _ {ℓ} {A : Type ℓ} where
  abbrev pub length : List A → ℕ
  length [] = 0
  length (x ∷ xs) = suc (length xs)

  abbrev pub take : ℕ → List A → List A
  take zero xs = []
  take (suc n) [] = []
  take (suc n) (x ∷ xs) = x ∷ take n xs

  abbrev pub drop : ℕ → List A → List A
  drop zero xs = xs
  drop (suc n) [] = []
  drop (suc n) (x ∷ xs) = drop n xs

  abbrev pub is_nil : List A → Bool
  is_nil [] = true
  is_nil (x ∷ xs) = false

  abbrev pub is_some : Option A → Bool
  is_some none = false
  is_some (some a) = true

  pub length-append : (xs ys : List A) → length (xs ++ ys) ≡ length xs + length ys
  length-append [] ys = omega arith
  length-append (x ∷ xs) ys = omega (arith, length-append xs ys)

  pub length-drop : (n : ℕ) (xs : List A) → length (drop n xs) ≡ length xs - n
  length-drop zero xs = omega arith
  length-drop (suc n) [] = omega arith
  length-drop (suc n) (x ∷ xs) = omega (arith, length-drop n xs)

  pub length-take_le : (n : ℕ) (xs : List A) → length (take n xs) ≤ n
  length-take_le zero xs = omega arith
  length-take_le (suc n) [] = omega arith
  length-take_le (suc n) (x ∷ xs) = omega (arith, length-take_le n xs)

  pub drop-length : (xs ys : List A) → drop (length xs) (xs ++ ys) ≡ ys
  drop-length [] ys = refl
  drop-length (x ∷ xs) ys = drop-length xs ys

  pub take-length : (xs ys : List A) → take (length xs) (xs ++ ys) ≡ xs
  take-length [] ys = refl
  take-length (x ∷ xs) ys = ap (◌∷◌ x) (take-length xs ys)

module _ {ℓ κ} {A : Type ℓ} (P : A → Type κ) where
  abbrev pub All : List A → Type κ
  All [] = Unit
  All (x ∷ xs) = P x × All xs

  pub All-append : (xs ys : List A) → All xs → All ys → All (xs ++ ys)
  All-append [] ys _ hy = hy
  All-append (x ∷ xs) ys (px, hx) hy = (px, All-append xs ys hx hy)
