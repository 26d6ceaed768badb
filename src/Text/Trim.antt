-- ===== src/Text/Trim.antt =====
-- Laws of trimming.
use dev_connect.Prelude.{
  ℕ, Bool, true, ◌≡◌, refl, arith, [], ◌∷◌, ◌++◌, All, ◌≤◌, length, Bool-cases, inl, inr,
}
use dev_connect.Text.{Text, trim_left}

module _ (p : ℕ → Bool) where
  pub trim_left_idem : (s : Text) → trim_left p (trim_left p s) ≡ trim_left p s
  unfolding trim_left
  trim_left_idem [] = refl
  trim_left_idem (c ∷ s) = ground (arith, trim_left_idem s)

  pub trim_left-append :
      (a s : Text) → All (λ c. p c ≡ true) a → trim_left p (a ++ s) ≡ trim_left p s
  unfolding trim_left
  trim_left-append [] s h = refl
  trim_left-append (c ∷ a) s (hc, ha) = rw hc (trim_left-append a s ha)

  -- A text is some trimmed bytes and the rest.
  pub trim_left-split : (s : Text) → (a : Text) × (s ≡ a ++ trim_left p s) × All (λ c. p c ≡ true) a
  unfolding trim_left
  trim_left-split [] = ([], refl, tt)
  trim_left-split (c ∷ s) = elim (Bool-cases (p c)) [
    | inl e ↦ let (a, split, all) = trim_left-split s in (c ∷ a, rw e (cc), (e, all))
    | inr e ↦ ([], rw e refl, tt)
  ]

  pub length-trim_left : (s : Text) → length (trim_left p s) ≤ length s
  unfolding trim_left
  length-trim_left [] = omega arith
  length-trim_left (c ∷ s) = ground (arith, length-trim_left s)
