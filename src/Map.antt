-- ===== src/Map.antt =====
-- Go's `map[string]T` as the list of its entries, in the order in which a loop visits them.
pub mod Order
pub mod Unordered
use dev_connect.Prelude.{
  Bool, Option, none, some, List, [], ◌∷◌, ◌≡◌, if◌then◌else◌, is_some, All, Bool-cases, inl, inr,
  subst,
}
use dev_connect.Text.{Text, equal}

abbrev pub Map {ℓ} : Type ℓ → Type ℓ
Map A = List (Text × A)

module _ {ℓ} {A : Type ℓ} where
  -- `v, ok := m[k]`
  unfoldable pub lookup : Text → Map A → Option A
  lookup k [] = none
  lookup k ((j, v) ∷ m) = if equal j k then some v else lookup k m

  unfoldable pub has_key : Text → Map A → Bool
  unfolding lookup
  has_key k m = is_some (lookup k m)

  -- What holds of all entries holds of one that is found.
  pub lookup-All {κ} :
      (P : A → Type κ) (k : Text) (m : Map A) {v : A}
      → All (λ (e : Text × A). P e.1) m
      → lookup k m ≡ some v
      → P v
  unfolding lookup
  lookup-All P k [] h e = cc
  lookup-All P k ((j, u) ∷ m) {v} (hu, hm) e = elim (Bool-cases (equal j k)) [
    | inl same ↦ let found : some u ≡ some v = rw (same, lookup) at e in subst P (cc) hu
    | inr other ↦ lookup-All P k m hm (rw (other, lookup) at e)
  ]

-- `m[k]` of a map of strings: the empty string for a missing key.
unfoldable pub text_at : Text → Map Text → Text
unfolding lookup
text_at k m = elim (lookup k m) [ none ↦ [] | some v ↦ v ]
