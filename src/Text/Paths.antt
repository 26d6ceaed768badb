-- ===== src/Text/Paths.antt =====
-- The functions of `path/filepath` that the program calls, for a separator `/`.
pub mod Names
use mathlib.Core.List.{reverse, foldl}
use dev_connect.Prelude.{Bool, not, ◌||◌, List, [], ◌∷◌, ◌++◌, ◌==◌, if◌then◌else◌, is_nil}
use dev_connect.Text.{Text, codes, equal, has_prefix, join, split}

-- One element of a path against those before it, the last one first.
clean_step : Bool → List Text → Text → List Text
clean_step rooted [] e =
    if is_nil e || equal e (codes ".")
    then []
    else if equal e (codes "..")
    then (if rooted then [] else e ∷ [])
    else e ∷ []
clean_step rooted (t ∷ ts) e =
    if is_nil e || equal e (codes ".")
    then t ∷ ts
    else if equal e (codes "..")
    then (if equal t (codes "..") then e ∷ t ∷ ts else ts)
    else e ∷ t ∷ ts

-- `filepath.Clean`
unfoldable pub clean : Text → Text
unfolding clean_step equal has_prefix join split
clean p =
    let rooted = has_prefix p (codes "/") in
    let body = join (reverse (foldl (clean_step rooted) [] (split p b'/'))) (codes "/") in
    if rooted then b'/' ∷ body else if is_nil body then codes "." else body

-- `filepath.Join` of two elements
unfoldable pub join_path : Text → Text → Text
unfolding clean
join_path [] [] = []
join_path [] (c ∷ q) = clean (c ∷ q)
join_path (c ∷ p) [] = clean (c ∷ p)
join_path (c ∷ p) (d ∷ q) = clean ((c ∷ p) ++ b'/' ∷ d ∷ q)

-- A path up to its last separator.
up_to_slash : Text → Text
up_to_slash [] = []
up_to_slash (c ∷ s) = let r = up_to_slash s in if c == b'/' || not (is_nil r) then c ∷ r else []

-- `filepath.Dir`
unfoldable pub dir_of : Text → Text
unfolding clean up_to_slash
dir_of p = clean (up_to_slash p)
