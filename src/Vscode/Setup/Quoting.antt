-- ===== src/Vscode/Setup/Quoting.antt =====
-- internal/vscode/remote_setup.go: what a shell makes of the lines that set the environment.
use dev_connect.Prelude.{
  ℕ, Bool, ◌||◌, Option, none, some, [], ◌∷◌, ◌++◌, append_assoc, ◌≡◌, refl, arith, if◌then◌else◌,
  ◌==◌, Bool-cases, inl, inr,
}
use dev_connect.Text.{Text, codes, replace_byte, cut, Lacks, equal}
use dev_connect.Proxy.Lookup.{cut-entry}
use dev_connect.Vscode.Setup.{shell_quote, export_line}

-- One more byte in front of the word that is read.
abbrev keep : ℕ → Option (Text × Text) → Option (Text × Text)
keep c none = none
keep c (some (v, rest)) = some (c ∷ v, rest)

-- Where a shell stands in a word: outside of quotes, behind a backslash, or in single quotes.
pub data Mode : Type 0 where
  outside escaped quoted : Mode

-- A byte that ends a word.
abbrev ends_word : ℕ → Bool
ends_word c = c == b' ' || (c == b'\t' || (c == b'\n' || c == b';'))

-- The word that a text starts with, by the rules of POSIX for quotes and backslashes, and what is
-- behind it: in single quotes every byte but the closing quote stands for itself. Bytes that start
-- an expansion are not read.
pub shell_word : Mode → Text → Option (Text × Text)
shell_word outside [] = some ([], [])
shell_word escaped [] = none
shell_word quoted [] = none
shell_word outside (c ∷ s) =
    let in_quotes = shell_word quoted s in
    let hidden = shell_word escaped s in
    let plain = keep c (shell_word outside s) in
    if c == b'\''
    then in_quotes
    else if c == b'\\'
    then hidden
    else if ends_word c
    then some ([], c ∷ s)
    else if c == b'$' || (c == b'"' || c == b'`')
    then none
    else plain
shell_word escaped (c ∷ s) = keep c (shell_word outside s)
shell_word quoted (c ∷ s) =
    let closed = shell_word outside s in
    let plain = keep c (shell_word quoted s) in if c == b'\'' then closed else plain

-- An assignment that an `export` line makes.
pub read_export : Text → Option (Text × (Text × Text))
unfolding shell_word
read_export line = elim (cut line b' ') [
  | none ↦ none
  | some p ↦
      if equal p.0 (codes "export")
      then elim (cut p.1 b'=') [
        | none ↦ none
        | some q ↦ elim (shell_word outside q.1) [ none ↦ none | some v ↦ some (q.0, v) ]
      ]
      else none
]

abbrev quote_in_quotes : Text
quote_in_quotes = codes "'\\''"

shell_word-quoted :
    (v r : Text)
    → shell_word quoted (replace_byte b'\'' quote_in_quotes v ++ b'\'' ∷ b'\n' ∷ r)
      ≡ some (v, b'\n' ∷ r)
unfolding shell_word replace_byte
shell_word-quoted [] r = refl
shell_word-quoted (c ∷ v) r = elim (Bool-cases (c == b'\'')) [
  | inl e ↦ rw (e, shell_word-quoted v r) (ground arith)
  | inr e ↦ rw (e, shell_word, e, shell_word-quoted v r) refl
]

-- Whatever bytes a value holds, a shell reads the quoted value back as one word that ends with the
-- line.
pub shell_word-shell_quote :
    (v r : Text) → shell_word outside (shell_quote v ++ b'\n' ∷ r) ≡ some (v, b'\n' ∷ r)
unfolding shell_word shell_quote
shell_word-shell_quote v r =
    rw (append_assoc (replace_byte b'\'' quote_in_quotes v)) (shell_word-quoted v r)

-- A shell that sources an `export` line gives the variable exactly the value, whatever bytes the
-- value holds, and goes on behind the line. No `=` stands in the name.
pub read_export-export_line :
    (name v r : Text)
    → Lacks b'=' name
    → read_export (export_line name v ++ b'\n' ∷ r) ≡ some (name, (v, b'\n' ∷ r))
unfolding read_export export_line cut equal
read_export-export_line name v r h =
    rw
      (append_assoc name, cut-entry name (shell_quote v ++ b'\n' ∷ r) h, shell_word-shell_quote v r)
      refl
