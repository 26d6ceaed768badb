-- ===== src/Text.antt =====
-- Go strings as lists of bytes, with the functions of the package `strings` that the program calls.
-- White space and letter case are those of ASCII.
pub mod Search
pub mod Utf8
pub mod Trim
pub mod Numbers
pub mod Paths
use Prim.Native.Char.{code}
use Prim.Native.String.{String}
use mathlib.Core.Option
use mathlib.Core.List.{flat_map}
use dev_connect.Prelude.{
  ℕ, zero, suc, ◌+◌, ◌-◌, Bool, true, false, ◌&&◌, ◌||◌, List, [], ◌∷◌, ◌++◌, map, Option, none,
  some, ◌≡◌, ◌≢◌, ◌↔◌, arith, leb, ◌==◌, if◌then◌else◌, is_some, is_nil, All,
}

abbrev pub Text : Type 0
Text = List ℕ

-- The code points of a literal; these are its bytes, since every literal here is ASCII.
abbrev pub codes : String → Text
codes String.[] = []
codes (String.◌∷◌ c s) = code c ∷ codes s

-- Go's `==` on strings.
unfoldable pub equal : Text → Text → Bool
equal [] [] = true
equal (x ∷ xs) (y ∷ ys) = x == y && equal xs ys
equal _ _ = false

pub equal_iff : (a b : Text) → (equal a b ≡ true) ↔ (a ≡ b)
unfolding equal
equal_iff (x ∷ a) (y ∷ b) = ground (arith, equal_iff a b)
equal_iff _ _ = ground arith

-- `strings.HasPrefix`
unfoldable pub has_prefix : Text → Text → Bool
has_prefix s [] = true
has_prefix [] (y ∷ ys) = false
has_prefix (x ∷ xs) (y ∷ ys) = x == y && has_prefix xs ys

-- `strings.Index`, with `none` for -1.
unfoldable pub index : Text → Text → Option ℕ
unfolding has_prefix
index [] sub = if is_nil sub then some 0 else none
index (c ∷ s) sub = if has_prefix (c ∷ s) sub then some 0 else Option.map suc (index s sub)

-- `strings.Contains`
unfoldable pub contains : Text → Text → Bool
unfolding index
contains s sub = is_some (index s sub)

-- `strings.Cut` at one byte: `none` when it is not found.
unfoldable pub cut : Text → ℕ → Option (Text × Text)
cut [] sep = none
cut (c ∷ s) sep =
    if c == sep
    then some ([], s)
    else Option.map (λ (p : Text × Text). let r : Text × Text = (c ∷ p.0, p.1) in r) (cut s sep)

-- `strings.TrimLeft` with the cutset as a test
unfoldable pub trim_left : (ℕ → Bool) → Text → Text
trim_left p [] = []
trim_left p (c ∷ s) = if p c then trim_left p s else c ∷ s

-- `strings.TrimRight`
unfoldable pub trim_right : (ℕ → Bool) → Text → Text
trim_right p [] = []
trim_right p (c ∷ s) = let r = trim_right p s in if is_nil r && p c then [] else c ∷ r

abbrev pub is_newline : ℕ → Bool
is_newline c = c == 13 || c == 10

unfoldable pub is_space : ℕ → Bool
is_space c = c == 32 || leb 9 c && leb c 13

-- `strings.TrimSpace`
unfoldable pub trim_space : Text → Text
unfolding trim_left trim_right is_space
trim_space s = trim_right is_space (trim_left is_space s)

-- `strings.ReplaceAll` of one byte
unfoldable pub replace_byte : ℕ → Text → Text → Text
replace_byte old by [] = []
replace_byte old by (c ∷ s) = (if c == old then by else c ∷ []) ++ replace_byte old by s

-- `strings.Join`
unfoldable pub join : List Text → Text → Text
join [] sep = []
join (p ∷ []) sep = p
join (p ∷ q ∷ ps) sep = p ++ (sep ++ join (q ∷ ps) sep)

-- The first part of `strings.Split`, and the others.
unfoldable pub split_first : Text → ℕ → Text × List Text
split_first [] sep = ([], [])
split_first (c ∷ s) sep =
    let (p, ps) = split_first s sep in if c == sep then ([], p ∷ ps) else (c ∷ p, ps)

-- `strings.Split` at one byte
unfoldable pub split : Text → ℕ → List Text
unfolding split_first
split s sep = let (p, ps) = split_first s sep in p ∷ ps

unfoldable pub lower : ℕ → ℕ
lower c = if leb 65 c && leb c 90 then c + 32 else c

-- `strings.ToLower`
unfoldable pub to_lower : Text → Text
unfolding lower
to_lower s = map lower s

-- `strings.EqualFold`
unfoldable pub equal_fold : Text → Text → Bool
unfolding equal to_lower
equal_fold a b = equal (to_lower a) (to_lower b)

-- No byte of the text is `b`.
abbrev pub Lacks : ℕ → Text → Type 0
Lacks b = All (λ c. c ≢ b)
