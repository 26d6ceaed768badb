-- ===== src/Map/Order.antt =====
-- Go's order of strings, `sort.Strings`, and the order in which a loop visits a map.
use dev_connect.Prelude.{
  Bool, true, false, Option, some, List, [], ◌∷◌, ◌≡◌, refl, sym, ap, ◌∙◌, arith, if◌then◌else◌,
  ltb, ◌==◌, Bool-cases, inl, inr,
}
use dev_connect.Text.{Text, equal, equal_iff}
use dev_connect.Map.{Map, lookup}

-- `a < b`
unfoldable pub less : Text → Text → Bool
less a [] = false
less [] (y ∷ b) = true
less (x ∷ a) (y ∷ b) = if x == y then less a b else ltb x y

unfoldable pub insert : Text → List Text → List Text
unfolding less
insert a [] = a ∷ []
insert a (x ∷ xs) = let rest = insert a xs in if less x a then x ∷ rest else a ∷ x ∷ xs

-- `sort.Strings`; the result of sorting is the same whatever the method.
unfoldable pub sort_strings : List Text → List Text
unfolding insert
sort_strings [] = []
sort_strings (x ∷ xs) = insert x (sort_strings xs)

pub less_asym : (a b : Text) → less a b ≡ true → less b a ≡ false
unfolding less
less_asym a [] h = cc
less_asym [] (y ∷ b) h = refl
less_asym (x ∷ a) (y ∷ b) h = ground (arith, less_asym a b)

pub less_total : (a b : Text) → less a b ≡ false → less b a ≡ false → a ≡ b
unfolding less
less_total [] [] h k = refl
less_total (x ∷ a) [] h k = cc
less_total [] (y ∷ b) h k = cc
less_total (x ∷ a) (y ∷ b) h k = ground (arith, less_total a b)

-- From `b ≤ x < a` follows `b < a`.
pub less_trans : (b x a : Text) → less x b ≡ false → less x a ≡ true → less b a ≡ true
unfolding less
less_trans b x [] h k = cc
less_trans [] x (z ∷ a) h k = refl
less_trans (y ∷ b) [] (z ∷ a) h k = cc
less_trans (y ∷ b) (x ∷ xs) (z ∷ a) h k = ground (arith, less_trans b xs a)

insert_comm : (a b : Text) (l : List Text) → insert a (insert b l) ≡ insert b (insert a l)
unfolding insert
insert_comm a b [] = elim (Bool-cases (less b a)) [
  | inl ba ↦ rw (ba, less_asym b a ba)
  | inr ba ↦ elim (Bool-cases (less a b)) [
    | inl ab ↦ rw (ba, ab)
    | inr ab ↦ rw (less_total a b ab ba)
  ]
]
insert_comm a b (x ∷ l) = elim (Bool-cases (less x a)) [
  | inl xa ↦ elim (Bool-cases (less x b)) [
    | inl xb ↦ rw (xb, xa, xb) (ap (λ (t : List Text). x ∷ t) (insert_comm a b l))
    | inr xb ↦ let ba : less b a ≡ true = less_trans b x a xb xa in rw (xb, xa, xb, ba)
  ]
  | inr xa ↦ elim (Bool-cases (less x b)) [
    | inl xb ↦ let ab : less a b ≡ true = less_trans a x b xa xb in rw (xb, xa, ab, xb)
    | inr xb ↦ elim (Bool-cases (less b a)) [
      | inl ba ↦ rw (xb, xa, xb, ba, less_asym b a ba)
      | inr ba ↦ elim (Bool-cases (less a b)) [
        | inl ab ↦ rw (xb, xa, xb, ba, ab)
        | inr ab ↦
            let same : a ≡ b = less_total a b ab ba in
            λ i. insert (same i) (insert (sym same i) (x ∷ l))
      ]
    ]
  ]
]

equal_apart : (k j key : Text) → k ≡ key → equal k j ≡ false → equal j key ≡ false
equal_apart k j key same other = elim (Bool-cases (equal j key)) [
  | inr e ↦ e
  | inl e ↦
      let same_j : k ≡ j = same ∙ sym ((equal_iff j key).0 e) in
      let yes : equal k j ≡ true = (equal_iff k j).1 same_j in cc
]

-- The keys of a map, in the order of its entries.
unfoldable pub keys {ℓ} : {A : Type ℓ} → Map A → List Text
keys [] = []
keys ((k, _) ∷ m) = k ∷ keys m

-- The same entries in another order. No key is there twice, so only entries with different keys
-- change places.
pub data Reordered {ℓ} (A : Type ℓ) : Map A → Map A → Type ℓ where
  nil : Reordered A [] []
  cons : {m n : Map A} (k : Text) (v : A) → Reordered A m n → Reordered A ((k, v) ∷ m) ((k, v) ∷ n)
  swap :
      (k : Text) (v : A) (j : Text) (u : A) (m : Map A)
      → equal k j ≡ false
      → Reordered A ((k, v) ∷ (j, u) ∷ m) ((j, u) ∷ (k, v) ∷ m)
  trans : {l m n : Map A} → Reordered A l m → Reordered A m n → Reordered A l n

module _ {ℓ} {A : Type ℓ} where
  pub lookup-Reordered :
      {m n : Map A} → Reordered A m n → (key : Text) → lookup key m ≡ lookup key n
  unfolding lookup
  lookup-Reordered nil key = refl
  lookup-Reordered (cons k v r) key =
      ap (λ (o : Option A). if equal k key then some v else o) (lookup-Reordered r key)
  lookup-Reordered (swap k v j u m other) key = elim (Bool-cases (equal k key)) [
    | inr e ↦ rw (e)
    | inl e ↦
        let same : k ≡ key = (equal_iff k key).0 e in
        let apart : equal j key ≡ false = equal_apart k j key same other in rw (e, apart)
  ]
  lookup-Reordered (trans r s) key = lookup-Reordered r key ∙ lookup-Reordered s key

  -- The sorted keys do not depend on the order of the entries.
  pub sort_strings-Reordered :
      {m n : Map A} → Reordered A m n → sort_strings (keys m) ≡ sort_strings (keys n)
  unfolding sort_strings keys
  sort_strings-Reordered nil = refl
  sort_strings-Reordered (cons k v r) = ap (insert k) (sort_strings-Reordered r)
  sort_strings-Reordered (swap k v j u m other) = insert_comm k j (sort_strings (keys m))
  sort_strings-Reordered (trans r s) = sort_strings-Reordered r ∙ sort_strings-Reordered s

-- No string stands before a smaller one.
unfoldable pub IsSorted : List Text → Type 0
IsSorted [] = Unit {0}
IsSorted (x ∷ []) = Unit {0}
IsSorted (x ∷ y ∷ l) = (less y x ≡ false) × IsSorted (y ∷ l)

insert-IsSorted : (a : Text) (l : List Text) → IsSorted l → IsSorted (insert a l)
unfolding insert IsSorted
insert-IsSorted a [] h = tt
insert-IsSorted a (x ∷ []) h = elim (Bool-cases (less x a)) [
  | inl e ↦ rw (e) (less_asym x a e, tt)
  | inr e ↦ rw (e) (e, tt)
]
insert-IsSorted a (x ∷ y ∷ l) (h, hs) = elim (Bool-cases (less x a)) [
  | inr e ↦ rw (e) (e, (h, hs))
  | inl e ↦
      let rest : IsSorted (insert a (y ∷ l)) = insert-IsSorted a (y ∷ l) hs in
      elim (Bool-cases (less y a)) [
        | inl f ↦ rw (e, f) (h, rw (f) at rest)
        | inr f ↦ rw (e, f) (less_asym x a e, rw (f) at rest)
      ]
]

pub sort_strings-IsSorted : (l : List Text) → IsSorted (sort_strings l)
unfolding sort_strings IsSorted
sort_strings-IsSorted [] = tt
sort_strings-IsSorted (x ∷ l) = insert-IsSorted x (sort_strings l) (sort_strings-IsSorted l)
