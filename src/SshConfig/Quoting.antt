-- ===== src/SshConfig/Quoting.antt =====
-- internal/sshconfig/sshconfig.go: `quoteConfigValue` against the way that OpenSSH reads a quoted
-- argument of its configuration.
use dev_connect.Prelude.{
  ℕ, Bool, true, false, ◌||◌, Option, none, some, [], ◌∷◌, ◌++◌, append_assoc, ◌≡◌, ◌≢◌, refl, sym,
  arith, All-append, All, ◌==◌, if◌then◌else◌,
}
use dev_connect.Text.{Text, replace_byte, Lacks}
use dev_connect.SshConfig.{quote_config_value}

abbrev pub backslash : ℕ
backslash = b'\\'

abbrev pub quote : ℕ
quote = b'"'

-- One more byte in front of the value that is read.
abbrev keep : ℕ → Option (Text × Text) → Option (Text × Text)
keep c none = none
keep c (some (v, rest)) = some (c ∷ v, rest)

-- The ends of a line and of a C string.
abbrev ends_line : ℕ → Bool
ends_line c = c == b'\n' || c == 0

-- OpenSSH behind an opening quote: a backslash hides a quote or a backslash, and stands for itself
-- before any other byte; the next bare quote ends the value. The flag says that a backslash has
-- been read. The result is the value and the text behind the closing quote. A configuration is read
-- line by line, each as a C string, so the value ends in its line or is not read at all.
read_argument : Bool → Text → Option (Text × Text)
read_argument after [] = none
read_argument false (c ∷ s) =
    let plain = keep c (read_argument false s) in
    let hidden = read_argument true s in
    if ends_line c
    then none
    else if c == quote
    then some ([], s)
    else if c == backslash
    then hidden
    else plain
read_argument true (c ∷ s) =
    let rest = keep c (read_argument false s) in
    if ends_line c
    then none
    else if c == quote || c == b'\'' || c == backslash
    then rest
    else keep backslash rest

-- The argument that a text starts with, if it starts with a quote.
pub read_quoted : Text → Option (Text × Text)
unfolding read_argument
read_quoted [] = none
read_quoted (c ∷ s) = if c == quote then read_argument false s else none

-- What the two replacements make of one byte.
hide : ℕ → Text
hide c =
    if c == backslash
    then backslash ∷ backslash ∷ []
    else if c == quote
    then backslash ∷ quote ∷ []
    else c ∷ []

-- The body of a quoted value.
escaped : Text → Text
escaped s =
    replace_byte quote (backslash ∷ quote ∷ [])
      (replace_byte backslash (backslash ∷ backslash ∷ []) s)

escaped-cons : (c : ℕ) (s : Text) → escaped (c ∷ s) ≡ hide c ++ escaped s
unfolding escaped hide replace_byte
escaped-cons c s = ground arith

read_argument-hide :
    (c : ℕ) (r : Text)
    → ends_line c ≡ false
    → read_argument false (hide c ++ r) ≡ keep c (read_argument false r)
unfolding read_argument hide
read_argument-hide c r h = ground arith

read_argument-escaped :
    (s r : Text)
    → All (λ c. ends_line c ≡ false) s
    → read_argument false (escaped s ++ quote ∷ r) ≡ some (s, r)
read_argument-escaped [] r h = unfold read_argument escaped replace_byte in refl
read_argument-escaped (c ∷ s) r (hc, hs) =
    rw
      (
        escaped-cons c s,
        append_assoc (hide c),
        read_argument-hide c (escaped s ++ quote ∷ r) hc,
        read_argument-escaped s r hs,
      )
      refl

no_end : (v : Text) → Lacks b'\n' v → Lacks 0 v → All (λ c. ends_line c ≡ false) v
no_end [] h k = tt
no_end (c ∷ v) (hc, hs) (kc, ks) = (ground arith, no_end v hs ks)

-- A value without a newline and without the byte 0, with quotes, backslashes and all other bytes, is
-- read back from its quoted form by a reader that follows the rules of OpenSSH, which goes on behind
-- it.
pub read_quoted-quote_config_value :
    (v r : Text) → Lacks b'\n' v → Lacks 0 v → read_quoted (quote_config_value v ++ r) ≡ some (v, r)
unfolding read_quoted quote_config_value
read_quoted-quote_config_value v r h k =
    unfold escaped in rw (append_assoc (escaped v)) (read_argument-escaped v r (no_end v h k))

hide-Lacks : (b c : ℕ) → b ≢ backslash → b ≢ quote → b ≢ c → Lacks b (hide c)
unfolding hide
hide-Lacks b c h k n = ground arith

escaped-Lacks : (b : ℕ) (v : Text) → b ≢ backslash → b ≢ quote → Lacks b v → Lacks b (escaped v)
escaped-Lacks b [] h k l = unfold escaped replace_byte in tt
escaped-Lacks b (c ∷ v) h k (hc, hv) = rw (escaped-cons c v) (
    All-append _ (hide c) (escaped v) (hide-Lacks b c h k (λ e. hc (sym e)))
      (escaped-Lacks b v h k hv))

-- Quoting adds quotes and backslashes only.
pub quote_config_value-Lacks :
    (b : ℕ) (v : Text) → b ≢ backslash → b ≢ quote → Lacks b v → Lacks b (quote_config_value v)
unfolding quote_config_value
quote_config_value-Lacks b v h k l = (
  (λ e. k (sym e)),
  unfold escaped in
      All-append (λ c. c ≢ b) (escaped v) (quote ∷ []) (escaped-Lacks b v h k l)
        ((λ e. k (sym e)), tt),
)
