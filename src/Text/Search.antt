-- ===== src/Text/Search.antt =====
-- Where a text is found in another: laws of `has_prefix` and `index`.
use mathlib.Core.Option
use dev_connect.Prelude.{
  ℕ, ◌+◌, ◌≤◌, ◌≡◌, refl, arith, [], ◌∷◌, ◌++◌, none, some, true, false, length, drop, suc, ◌≢◌,
  Option-cases, Bool-cases, inl, inr, is_some, Option, ◌∙◌,
}
use dev_connect.Text.{Text, has_prefix, index, contains, Lacks}

pub has_prefix-append : (m r : Text) → has_prefix (m ++ r) m ≡ true
unfolding has_prefix
has_prefix-append [] r = refl
has_prefix-append (c ∷ m) r = ground (arith, has_prefix-append m r)

pub has_prefix-split : (s m : Text) → has_prefix s m ≡ true → s ≡ m ++ drop (length m) s
unfolding has_prefix
has_prefix-split s [] h = refl
has_prefix-split [] (y ∷ m) h = cc
has_prefix-split (x ∷ s) (y ∷ m) h = ground (arith, has_prefix-split s m)

pub index-append_self : (c : ℕ) (m r : Text) → index ((c ∷ m) ++ r) (c ∷ m) ≡ some 0
unfolding index
index-append_self c m r = rw (has_prefix-append (c ∷ m) r)

pub has_prefix_ne : (b c : ℕ) (s m : Text) → c ≢ b → has_prefix (c ∷ s) (b ∷ m) ≡ false
unfolding has_prefix
has_prefix_ne b c s m h = ground arith

-- A text found by its first byte is not found before that byte.
pub index-append_Lacks :
    (b : ℕ) (p s m : Text)
    → Lacks b p
    → index (p ++ s) (b ∷ m) ≡ Option.map (λ i. length p + i) (index s (b ∷ m))
unfolding index
index-append_Lacks b [] s m h = elim (index s (b ∷ m)) as (λ o. o ≡ Option.map (λ i. 0 + i) o) [
  | none ↦ refl
  | some i ↦ ground arith
]
index-append_Lacks b (c ∷ p) s m (hc, hp) = rw (has_prefix_ne b c (p ++ s) m hc) (
    rw (index-append_Lacks b p s m hp)
      (elim (index s (b ∷ m))
        as (λ o.
          Option.map suc (Option.map (λ i. length p + i) o)
          ≡ Option.map (λ i. suc (length p) + i) o) [ none ↦ refl | some i ↦ ground arith ]))

pub has_prefix-length : (s m : Text) → has_prefix s m ≡ true → length m ≤ length s
unfolding has_prefix
has_prefix-length s [] h = omega arith
has_prefix-length [] (y ∷ m) h = cc
has_prefix-length (x ∷ s) (y ∷ m) h = ground (arith, has_prefix-length s m)

-- What is found lies within the text.
pub index_bound : (s m : Text) {i : ℕ} → index s m ≡ some i → i + length m ≤ length s
unfolding index
index_bound [] [] h = ground arith
index_bound [] (y ∷ m) h = cc
index_bound (c ∷ s) m {i} h = elim (Bool-cases (has_prefix (c ∷ s) m)) [
  | inl e ↦ let at : some 0 ≡ some i = rw e at h in ground (arith, has_prefix-length (c ∷ s) m e)
  | inr e ↦
      let at : Option.map suc (index s m) ≡ some i = rw e at h in
      elim (Option-cases (index s m)) [
        | inl none_ ↦ let no : none ≡ some i = rw none_ at at in cc
        | inr (j, found) ↦
            let yes_ : some (suc j) ≡ some i = rw found at at in
            let ih = index_bound s m found in ground arith
      ]
]

pub index-cons_ne :
    (c : ℕ) (s m : Text)
    → has_prefix (c ∷ s) m ≡ false
    → index (c ∷ s) m ≡ Option.map suc (index s m)
unfolding index
index-cons_ne c s m h = rw h

-- A text is not found where its first byte does not stand.
pub index_Lacks : (b : ℕ) (s m : Text) → Lacks b s → index s (b ∷ m) ≡ none
unfolding index
index_Lacks b [] m h = refl
index_Lacks b (c ∷ s) m (hc, hs) = rw (has_prefix_ne b c s m hc) (rw (index_Lacks b s m hs))

is_some-map : (o : Option ℕ) → is_some (Option.map suc o) ≡ is_some o
is_some-map none = refl
is_some-map (some i) = refl

-- A text is found in what has it in the middle.
pub contains-append : (p m r : Text) → contains (p ++ (m ++ r)) m ≡ true
unfolding contains index
contains-append [] [] [] = refl
contains-append [] [] (c ∷ r) = unfold has_prefix in refl
contains-append [] (c ∷ m) r = rw (has_prefix-append (c ∷ m) r) refl
contains-append (c ∷ p) m r = elim (Bool-cases (has_prefix (c ∷ p ++ (m ++ r)) m)) [
  | inl e ↦ rw (e) refl
  | inr e ↦ rw (e) (is_some-map (index (p ++ (m ++ r)) m) ∙ contains-append p m r)
]
