-- ===== src/SshConfig/UserConfig/Settle.antt =====
-- internal/sshconfig/userconfig.go: removing a block a second time changes nothing.
use mathlib.Core.Option
use mathlib.Core.Path.{ap₂}
use dev_connect.Prelude.{
  ℕ, zero, suc, ◌+◌, ◌<◌, ◌≡◌, refl, sym, ap, ◌∙◌, arith, Option, none, some, Option-cases, inl,
  inr, true, All, [], ◌∷◌, ◌++◌, drop, length,
}
use dev_connect.Text.{Text, index, trim_left, is_newline, Lacks}
use dev_connect.Text.Search.{index-append_Lacks}
use dev_connect.Text.Trim.{trim_left_idem, trim_left-split}
use dev_connect.SshConfig.UserConfig.{cut_block, remove_managed_block, begin_marker, end_marker}
use dev_connect.SshConfig.UserConfig.Loop.{remove_managed_block_lem, removal_shortens}
use dev_connect.SshConfig.UserConfig.Blocks.{hash, begin_tail}

map-eq-none : (f : ℕ → ℕ) (o : Option ℕ) → Option.map f o ≡ none → o ≡ none
map-eq-none f none h = refl
map-eq-none f (some i) h = cc

map-eq-some : (f : ℕ → ℕ) (o : Option ℕ) {i k : ℕ} → o ≡ some i → Option.map f o ≡ some k → f i ≡ k
map-eq-some f none e h = cc
map-eq-some f (some j) e h = cc

module _ (alias : Text) where
  -- Without a begin marker the text loses its first newlines only.
  pub remove_none :
      (c : Text)
      → index c (begin_marker alias) ≡ none
      → remove_managed_block c alias ≡ trim_left is_newline c
  remove_none c h = rw remove_managed_block_lem (rw h refl)

  -- A block with no end stays.
  pub remove_open :
      (c : Text) {start : ℕ}
      → index c (begin_marker alias) ≡ some start
      → index (drop start c) (end_marker alias) ≡ none
      → remove_managed_block c alias ≡ c
  remove_open c h g = rw remove_managed_block_lem (rw h (rw g refl))

  remove_step :
      (c : Text) {start stop : ℕ}
      → index c (begin_marker alias) ≡ some start
      → index (drop start c) (end_marker alias) ≡ some stop
      → remove_managed_block c alias
        ≡ remove_managed_block (cut_block c (end_marker alias) start stop) alias
  remove_step c h g = remove_managed_block_lem c alias ∙ rw h (rw g refl)

  newlines-Lacks : (a : Text) → All (λ c. is_newline c ≡ true) a → Lacks hash a
  newlines-Lacks [] h = tt
  newlines-Lacks (c ∷ a) (hc, ha) = (ground arith, newlines-Lacks a ha)

  drop-append : (a s : Text) (j : ℕ) → drop (length a + j) (a ++ s) ≡ drop j s
  drop-append [] s j = ap (λ k. drop k s) (omega arith)
  drop-append (c ∷ a) s j = ap (λ k. drop k (c ∷ (a ++ s))) shift ∙ drop-append a s j
    where
      shift : suc (length a) + j ≡ suc (length a + j)
      shift = omega arith

  -- Where a marker is found in a text, and where in the text without its first newlines.
  index-trim_left :
      (c : Text)
      → (a : Text) × (c ≡ a ++ trim_left is_newline c)
        × (index c (begin_marker alias)
            ≡ Option.map (λ i. length a + i) (index (trim_left is_newline c) (begin_marker alias)))
  unfolding begin_marker
  index-trim_left c =
      let (a, split, all) = trim_left-split is_newline c in
      (
        a,
        split,
        ap (λ x. index x (begin_marker alias)) split
            ∙ index-append_Lacks hash a (trim_left is_newline c) (begin_tail alias)
                (newlines-Lacks a all),
      )

  -- A text that removal leaves, but for its first newlines.
  abbrev Settled : Text → Type 0
  Settled r = remove_managed_block (trim_left is_newline r) alias ≡ trim_left is_newline r

  Settled-none : (c : Text) → index c (begin_marker alias) ≡ none → Settled c
  Settled-none c h =
      let (a, split, at) = index-trim_left c in
      let none_in = map-eq-none (λ i. length a + i) _ (sym at ∙ h) in
      remove_none (trim_left is_newline c) none_in ∙ trim_left_idem is_newline c

  Settled-open :
      (c : Text) {start : ℕ}
      → index c (begin_marker alias) ≡ some start
      → index (drop start c) (end_marker alias) ≡ none
      → Settled c
  Settled-open c {start} h g =
      let (a, split, at) = index-trim_left c in
      elim (Option-cases (index (trim_left is_newline c) (begin_marker alias))) [
        | inl e ↦ Settled-none c (at ∙ ap (Option.map (λ i. length a + i)) e)
        | inr (j, e) ↦
            let k = map-eq-some (λ i. length a + i) _ e (sym at ∙ h) in
            let same : drop start c ≡ drop j (trim_left is_newline c) =
              ap₂ (λ (x : ℕ) (y : Text). drop x y) (sym k) split
              ∙ drop-append a (trim_left is_newline c) j in
            remove_open (trim_left is_newline c) e
              (ap (λ x. index x (end_marker alias)) (sym same) ∙ g)
      ]

  Settled-within : (n : ℕ) (c : Text) → length c < n → Settled (remove_managed_block c alias)
  Settled-within zero c h = absurd (omega arith)
  Settled-within (suc n) c h = elim (Option-cases (index c (begin_marker alias))) [
    | inl e ↦ rw (remove_none c e, trim_left_idem is_newline c) (Settled-none c e)
    | inr (start, e) ↦ elim (Option-cases (index (drop start c) (end_marker alias))) [
      | inl g ↦ rw (remove_open c e g) (Settled-open c e g)
      | inr (stop, g) ↦ rw (remove_step c e g) (
          Settled-within n (cut_block c (end_marker alias) start stop)
            (omega (arith, removal_shortens c alias stop e)))
    ]
  ]

-- Removing the blocks of an alias a second time, from what the first removal left without the
-- newlines at its start, changes nothing.
pub remove_managed_block_settled :
    (c alias : Text)
    → remove_managed_block (trim_left is_newline (remove_managed_block c alias)) alias
      ≡ trim_left is_newline (remove_managed_block c alias)
remove_managed_block_settled c alias = Settled-within alias (suc (length c)) c (omega arith)
