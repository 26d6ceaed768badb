-- ===== src/Logging.antt =====
-- internal/logging/logging.go: structured logs, which carry no secret.
pub mod Secrets
use dev_connect.Prelude.{
  ℤ, ℕ, Bool, true, false, ◌||◌, Option, none, some, List, [], ◌∷◌, map, ◌≡◌, refl, ap, arith,
  if◌then◌else◌, leb,
}
use dev_connect.Text.{Text, codes, equal, contains, to_lower}
use dev_connect.Result.{Result, ok, err, ◌>>=◌, unsupported_log_level, unsupported_log_format}

-- The levels of log/slog.
pub data Level : Type 0 where
  debug info warn error : Level

abbrev pub rank : Level → ℕ
rank debug = 0
rank info = 1
rank warn = 2
rank error = 3

pub data Format : Type 0 where
  as_text as_json : Format

pub record Logger : Type 0 where
  pub format : Format
  pub level : Level

-- The value of an attribute: those of `slog.String` and `slog.Int`, and any other one as it is
-- printed.
pub data AttrValue : Type 0 where
  string : Text → AttrValue
  int : ℤ → AttrValue
  other : Text → AttrValue

-- An attribute as `ReplaceAttr` is given it, with the names of the groups around it. log/slog calls
-- it for each attribute in a group, and not for the group itself.
pub record Attr : Type 0 where
  pub groups : List Text
  pub key : Text
  pub value : AttrValue

unfoldable pub parse_level : Text → Result Level
unfolding equal
parse_level level =
    if equal level [] || equal level (codes "info")
    then ok info
    else if equal level (codes "debug")
    then ok debug
    else if equal level (codes "warn")
    then ok warn
    else if equal level (codes "error")
    then ok error
    else err unsupported_log_level

unfoldable pub parse_format : Text → Result Format
unfolding equal
parse_format format =
    if equal format [] || equal format (codes "text")
    then ok as_text
    else if equal format (codes "json")
    then ok as_json
    else err unsupported_log_format

-- `New`: the level is looked at first.
unfoldable pub new : Text → Text → Result Logger
unfolding parse_level parse_format
new format level = do
  l ← parse_level level
  f ← parse_format format
  ok (record { format = f; level = l })

abbrev pub redacted : Text
redacted = codes "[redacted]"

abbrev pub fragments : List Text
fragments =
    codes "password"
    ∷ codes "privatekey"
    ∷ codes "private_key"
    ∷ codes "token"
    ∷ codes "bearer"
    ∷ codes "authorization"
    ∷ codes "credential"
    ∷ codes "kubeconfig"
    ∷ codes "secret"
    ∷ []

-- The loop over the fragments.
unfoldable pub contains_any : Text → List Text → Bool
unfolding contains
contains_any key [] = false
contains_any key (f ∷ fs) = contains key f || contains_any key fs

unfoldable pub is_sensitive_key : Text → Bool
unfolding contains_any to_lower
is_sensitive_key key = contains_any (to_lower key) fragments

unfoldable pub redact_attr : Attr → Attr
unfolding is_sensitive_key
redact_attr a = if is_sensitive_key a.key then record a { value = string redacted } else a

-- What a handler of log/slog writes: nothing below its level, and else each attribute as
-- `ReplaceAttr` makes it.
unfoldable pub log_attrs : Logger → Level → List Attr → Option (List Attr)
unfolding redact_attr
log_attrs logger level attrs =
    if leb (rank logger.level) (rank level) then some (map redact_attr attrs) else none
