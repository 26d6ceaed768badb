-- ===== src/Text/Utf8.antt =====
-- UTF-8, as the package `unicode/utf8` decides it: `utf8.Valid`.
use dev_connect.Prelude.{
  ℕ, Bool, true, false, ◌&&◌, Option, none, some, List, [], ◌∷◌, if◌then◌else◌, leb, is_some,
}
use dev_connect.Text.{Text}

-- The least and the greatest byte that may stand at a place.
abbrev pub Range : Type 0
Range = ℕ × ℕ

abbrev pub in_range : Range → ℕ → Bool
in_range (low, high) c = leb low c && leb c high

abbrev pub continuation : Range
continuation = (0x80, 0xBF)

-- The bytes that follow a first byte, neither overlong nor a surrogate nor above the last code
-- point; `none` where no sequence begins with the byte.
abbrev pub following : ℕ → Option (List Range)
following c =
    if leb c 0x7F
    then some []
    else if in_range (0xC2, 0xDF) c
    then some (continuation ∷ [])
    else if in_range (0xE0, 0xE0) c
    then some ((0xA0, 0xBF) ∷ continuation ∷ [])
    else if in_range (0xED, 0xED) c
    then some ((0x80, 0x9F) ∷ continuation ∷ [])
    else if in_range (0xE1, 0xEF) c
    then some (continuation ∷ continuation ∷ [])
    else if in_range (0xF0, 0xF0) c
    then some ((0x90, 0xBF) ∷ continuation ∷ continuation ∷ [])
    else if in_range (0xF1, 0xF3) c
    then some (continuation ∷ continuation ∷ continuation ∷ [])
    else if in_range (0xF4, 0xF4) c
    then some ((0x80, 0x8F) ∷ continuation ∷ continuation ∷ [])
    else none

abbrev pub ranges : Option (List Range) → List Range
ranges none = []
ranges (some l) = l

-- The bytes that are due, and then whole sequences.
abbrev pub is_utf8_after : List Range → Text → Bool
is_utf8_after [] [] = true
is_utf8_after (r ∷ due) [] = false
is_utf8_after (r ∷ due) (c ∷ s) = in_range r c && is_utf8_after due s
is_utf8_after [] (c ∷ s) = is_some (following c) && is_utf8_after (ranges (following c)) s

abbrev pub is_utf8 : Text → Bool
is_utf8 s = is_utf8_after [] s
