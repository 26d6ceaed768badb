-- ===== src/Text/Paths/Names.antt =====
-- A path that `filepath.Join` makes ends with the name that was joined to it.
use mathlib.Core.List.{reverse, foldl, reverse-cons, foldl-append}
use dev_connect.Prelude.{
  ℕ, Bool, true, false, List, [], ◌∷◌, ◌++◌, append_assoc, ◌≡◌, ◌≢◌, refl, sym, ap, ◌∙◌, arith,
  ◌==◌, is_nil, inl, inr, Bool-cases,
}
use dev_connect.Text.{Text, codes, equal, has_prefix, join, split, split_first, Lacks}
use dev_connect.Text.Paths.{clean, clean_step, join_path}

-- One element of a path that names a file: `filepath.Clean` keeps it.
pub record IsName (b : Text) : Type 0 where
  pub no_slash : Lacks b'/' b
  pub not_empty : is_nil b ≡ false
  pub not_dot : equal b (codes ".") ≡ false
  pub not_dots : equal b (codes "..") ≡ false

split_first-Lacks : (b : Text) → Lacks b'/' b → split_first b b'/' ≡ (b, [])
unfolding split_first
split_first-Lacks [] h = refl
split_first-Lacks (c ∷ b) (hc, hb) = ground (arith, split_first-Lacks b hb)

split_first-append :
    (d b : Text)
    → Lacks b'/' b
    → split_first (d ++ b'/' ∷ b) b'/' ≡ ((split_first d b'/').0, (split_first d b'/').1 ++ b ∷ [])
unfolding split_first
split_first-append [] b h = rw (split_first-Lacks b h)
split_first-append (c ∷ d) b h = elim (Bool-cases (c == b'/')) [
  | inl e ↦ rw (split_first-append d b h, e)
  | inr e ↦ rw (split_first-append d b h, e)
]

split-append : (d b : Text) → Lacks b'/' b → split (d ++ b'/' ∷ b) b'/' ≡ split d b'/' ++ b ∷ []
unfolding split
split-append d b h = rw (split_first-append d b h)

clean_step-IsName : (r : Bool) (ts : List Text) (b : Text) → IsName b → clean_step r ts b ≡ b ∷ ts
unfolding clean_step
clean_step-IsName r [] b n = rw (n.not_empty, n.not_dot, n.not_dots)
clean_step-IsName r (t ∷ ts) b n = rw (n.not_empty, n.not_dot, n.not_dots)

-- What is joined last stands last.
join-last : (xs : List Text) (b : Text) → (p : Text) × (join (xs ++ b ∷ []) (codes "/") ≡ p ++ b)
unfolding join
join-last [] b = ([], refl)
join-last (x ∷ []) b = (x ++ codes "/", sym (append_assoc x (codes "/") b))
join-last (x ∷ y ∷ xs) b =
    let (p, e) = join-last (y ∷ xs) b in
    (x ++ (codes "/" ++ p), ap (λ r. x ++ b'/' ∷ r) e ∙ sym (append_assoc x (b'/' ∷ p) b))

split_Lacks : (b : Text) → Lacks b'/' b → split b b'/' ≡ b ∷ []
unfolding split
split_Lacks b h = rw (split_first-Lacks b h)

is_nil-append : (p s : Text) → is_nil s ≡ false → is_nil (p ++ s) ≡ false
is_nil-append [] s h = h
is_nil-append (c ∷ p) s h = refl

-- The elements of a path whose last one is a name.
clean-last :
    (r : Bool) (xs : List Text) (b : Text)
    → IsName b
    → reverse (foldl (clean_step r) [] (xs ++ b ∷ []))
      ≡ reverse (foldl (clean_step r) [] xs) ++ b ∷ []
clean-last r xs b n =
    rw
      (
        foldl-append (clean_step r) [] xs (b ∷ []),
        clean_step-IsName r (foldl (clean_step r) [] xs) b n,
      )
      (reverse-cons b (foldl (clean_step r) [] xs))

-- Cleaning a path keeps the name at its end.
clean-IsName :
    (d : Text) (b : Text) (xs : List Text)
    → IsName b
    → split d b'/' ≡ xs ++ b ∷ []
    → (p : Text) × (clean d ≡ p ++ b)
unfolding clean
clean-IsName d b xs n e = elim (Bool-cases (has_prefix d (codes "/"))) [
  | inl r ↦
      let (p, at) = join-last (reverse (foldl (clean_step true) [] xs)) b in
      (b'/' ∷ p, rw (r, e, clean-last true xs b n, at))
  | inr r ↦
      let (p, at) = join-last (reverse (foldl (clean_step false) [] xs)) b in
      (p, rw (r, e, clean-last false xs b n, at) (rw (is_nil-append p b n.not_empty)))
]

-- Whatever the directory is, the joined path ends with the name.
pub join_path-IsName : (d b : Text) → IsName b → (p : Text) × (join_path d b ≡ p ++ b)
unfolding join_path
join_path-IsName d [] n = cc (n.not_empty)
join_path-IsName [] (c ∷ b) n =
    clean-IsName (c ∷ b) (c ∷ b) [] n (rw (split_Lacks (c ∷ b) n.no_slash))
join_path-IsName (c ∷ d) (x ∷ b) n =
    clean-IsName ((c ∷ d) ++ b'/' ∷ x ∷ b) (x ∷ b) (split (c ∷ d) b'/') n
      (split-append (c ∷ d) (x ∷ b) n.no_slash)

abbrev pub last_byte : Text → ℕ
last_byte [] = 0
last_byte (c ∷ []) = c
last_byte (c ∷ d ∷ s) = last_byte (d ∷ s)

last_byte-append : (p s : Text) → is_nil s ≡ false → last_byte (p ++ s) ≡ last_byte s
last_byte-append [] s h = refl
last_byte-append (c ∷ []) [] h = cc
last_byte-append (c ∷ []) (x ∷ s) h = refl
last_byte-append (c ∷ d ∷ p) s h = last_byte-append (d ∷ p) s h

-- Names with different last bytes make different paths, in whatever directories.
pub join_path_ne :
    (d e a b : Text)
    → IsName a
    → IsName b
    → last_byte a ≢ last_byte b
    → join_path d a ≢ join_path e b
join_path_ne d e a b na nb ne eq =
    let (p, ep) = join_path-IsName d a na in
    let (q, eq') = join_path-IsName e b nb in
    ne (
      sym (last_byte-append p a na.not_empty)
      ∙ ap last_byte (sym ep ∙ eq ∙ eq')
      ∙ last_byte-append q b nb.not_empty)

-- A joined path is not empty.
pub join_path-given : (d b : Text) → IsName b → is_nil (join_path d b) ≡ false
join_path-given d b n =
    let (p, e) = join_path-IsName d b n in ap is_nil e ∙ is_nil-append p b n.not_empty
