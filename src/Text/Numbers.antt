-- ===== src/Text/Numbers.antt =====
-- Numbers in decimal, as `%d` prints them.
use dev_connect.Prelude.{
  ℕ, zero, suc, ◌+◌, ◌-◌, ◌*◌, ◌/◌, ◌%◌, ◌≤◌, ◌<◌, ◌≡◌, refl, arith, [], ◌∷◌, ℤ, pos, negsuc,
  if◌then◌else◌, ◌==◌, All, Bool-cases, inl, inr,
}
use dev_connect.Text.{Text, Lacks}

-- One digit for each round, while the number is positive; the first argument is fuel.
pub digits : ℕ → ℕ → Text → Text
digits zero n out = out
digits (suc f) n out =
    let rest = digits f (n / 10) ((48 + n % 10) ∷ out) in if n == 0 then out else rest

unfoldable pub decimal : ℕ → Text
unfolding digits
decimal n = if n == 0 then 48 ∷ [] else digits n n []

unfoldable pub decimal_int : ℤ → Text
unfolding decimal
decimal_int (pos n) = decimal n
decimal_int (negsuc n) = 45 ∷ decimal (suc n)

-- The number that digits spell behind `n`.
abbrev pub read_digits : ℕ → Text → ℕ
read_digits n [] = n
read_digits n (c ∷ s) = read_digits (n * 10 + (c - 48)) s

read_digits-digits :
    (f n : ℕ) (out : Text) → n ≤ f → read_digits 0 (digits f n out) ≡ read_digits n out
unfolding digits
read_digits-digits zero n out h = let e : n ≡ 0 = omega arith in rw e refl
read_digits-digits (suc f) n out h = elim (Bool-cases (n == 0)) [
  | inl done ↦ ground arith
  | inr more ↦
      rw more (ground (arith, read_digits-digits f (n / 10) ((48 + n % 10) ∷ out) (ground arith)))
]

pub read_digits-decimal : (n : ℕ) → read_digits 0 (decimal n) ≡ n
unfolding decimal
read_digits-decimal n = ground (arith, read_digits-digits n n [])

abbrev pub IsDigit : ℕ → Type 0
IsDigit c = (48 ≤ c) × (c ≤ 57)

digits-IsDigit : (f n : ℕ) (out : Text) → All IsDigit out → All IsDigit (digits f n out)
unfolding digits
digits-IsDigit zero n out h = h
digits-IsDigit (suc f) n out h = elim (Bool-cases (n == 0)) [
  | inl done ↦ rw done h
  | inr more ↦ rw more (digits-IsDigit f (n / 10) _ (omega arith, h))
]

pub decimal-IsDigit : (n : ℕ) → All IsDigit (decimal n)
unfolding decimal
decimal-IsDigit n = elim (Bool-cases (n == 0)) [
  | inl e ↦ rw e (omega arith)
  | inr e ↦ rw e (digits-IsDigit n n [] tt)
]

pub IsDigit-Lacks : (b : ℕ) (s : Text) → b < 45 → All IsDigit s → Lacks b s
IsDigit-Lacks b [] lt h = tt
IsDigit-Lacks b (c ∷ s) lt (hc, hs) = (omega arith, IsDigit-Lacks b s lt hs)

-- No byte below `-` stands in a number.
pub decimal_int-Lacks : (b : ℕ) (i : ℤ) → b < 45 → Lacks b (decimal_int i)
unfolding decimal_int
decimal_int-Lacks b (pos n) lt = IsDigit-Lacks b _ lt (decimal-IsDigit n)
decimal_int-Lacks b (negsuc n) lt = (omega arith, IsDigit-Lacks b _ lt (decimal-IsDigit (suc n)))
