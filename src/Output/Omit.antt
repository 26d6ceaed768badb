-- ===== src/Output/Omit.antt =====
-- internal/output/output.go: reading a map whose empty entries were left out.
use dev_connect.Prelude.{
  Bool, true, false, not, ◌&&◌, Option, none, some, [], ◌∷◌, ◌≡◌, refl, sym, ap, ◌∙◌, arith,
  Bool-cases, Option-cases, inl, inr,
}
use dev_connect.Text.{Text, equal, equal_iff}
use dev_connect.Map.{Map, lookup, has_key}
use dev_connect.Output.{omit_empty}

-- No key is there twice.
abbrev pub distinct {ℓ} : {A : Type ℓ} → Map A → Bool
distinct [] = true
distinct ((k, v) ∷ m) = not (has_key k m) && distinct m

lookup-has_key {ℓ} :
    {A : Type ℓ} (j k : Text) (m : Map A)
    → has_key j m ≡ false
    → equal j k ≡ true
    → lookup k m ≡ none
unfolding has_key
lookup-has_key j k m h e = elim (Option-cases (lookup k m)) [
  | inl nothing ↦ nothing
  | inr (v, found) ↦
      let same : j ≡ k = (equal_iff j k).0 e in
      let there : has_key j m ≡ true = rw (same, found) in cc
]

-- What is read of an empty field is what is read of a missing one.
module _ {ℓ κ} {A : Type ℓ} {B : Type κ} (empty : A → Bool) (read : Option A → B)
    (blank : (v : A) → empty v ≡ true → read (some v) ≡ read none) where
  pub lookup-omit_empty :
      (k : Text) (m : Map A)
      → distinct m ≡ true
      → read (lookup k (omit_empty empty m)) ≡ read (lookup k m)
  unfolding lookup omit_empty
  lookup-omit_empty k [] h = refl
  lookup-omit_empty k ((j, v) ∷ m) h =
      let fresh : has_key j m ≡ false = ground arith in
      let rest : read (lookup k (omit_empty empty m)) ≡ read (lookup k m) =
        lookup-omit_empty k m (ground arith) in
      elim (Bool-cases (empty v)) [
        | inr e ↦ elim (Bool-cases (equal j k)) [
          | inl same ↦ rw (e, same)
          | inr other ↦ rw (e, other) rest
        ]
        | inl e ↦ elim (Bool-cases (equal j k)) [
          | inl same ↦
              rw (e, same) (rest ∙ ap read (lookup-has_key j k m fresh same) ∙ sym (blank v e))
          | inr other ↦ rw (e, other) rest
        ]
      ]
