-- ===== src/Cli/Announce/Logged.antt =====
-- cmd/dev-connect/main.go: the log line of a command, for options that were accepted.
use dev_connect.Prelude.{
  Bool, true, false, List, [], ◌∷◌, ◌++◌, map, ◌≡◌, refl, ap, ◌∙◌, if◌then◌else◌, is_nil, not, ◌||◌,
  is_positive, All, Bool-cases, inl, inr, subst, sym, map-append, pos, length,
}
use dev_connect.Text.{Text, codes, equal, equal_iff, to_lower, contains}
use dev_connect.Result.{Error, fail_if, invalid_output, invalid_log_format, ok, >>=-eq-ok}
use dev_connect.Output.{Response}
use dev_connect.Logging.{
  as_text, as_json, Attr, Format, string, int, Logger, Level, debug, info, warn, error, new,
  log_attrs, redact_attr, is_sensitive_key, contains_any,
}
use dev_connect.Cli.{CliOptions, one_of, validate_options}
use dev_connect.Cli.Announce.{Console, attr, optional, attributes, log_command, log_with}

-- The options by which a level and a format are asked for.
abbrev pub level_name : Level → Text
level_name debug = codes "debug"
level_name info = codes "info"
level_name warn = codes "warn"
level_name error = codes "error"

abbrev pub format_name : Format → Text
format_name as_text = codes "text"
format_name as_json = codes "json"

-- What holds of all that is allowed holds of a value that is.
one_of-All {ℓ} :
    (P : Text → Type ℓ) (value : Text) (allowed : List Text)
    → All P allowed
    → one_of value allowed ≡ true
    → P value
unfolding one_of
one_of-All P value [] h e = cc
one_of-All P value (a ∷ allowed) (h, hs) e = elim (Bool-cases (equal value a)) [
  | inl same ↦ subst P (sym ((equal_iff value a).0 same)) h
  | inr other ↦ one_of-All P value allowed hs (rw (other) at e)
]

passed : (b : Bool) (e : Error) {t : Unit {0}} → fail_if (not b) e ≡ ok t → b ≡ true
passed true e h = refl
passed false e h = cc

redact_attr-optional :
    (b : Bool) (a : Attr)
    → is_sensitive_key a.key ≡ false
    → map redact_attr (optional b a) ≡ optional b a
unfolding redact_attr
redact_attr-optional true a h = rw (h)
redact_attr-optional false a h = refl

map-both :
    (xs ys : List Attr)
    → map redact_attr xs ≡ xs
    → map redact_attr ys ≡ ys
    → map redact_attr (xs ++ ys) ≡ xs ++ ys
map-both xs ys h k = map-append redact_attr xs ys ∙ (λ i. h i ++ k i)

attributes-redacted :
    (name : Text) (r : Response) → map redact_attr (attributes name r) ≡ attributes name r
unfolding attributes redact_attr is_sensitive_key contains_any contains to_lower
attributes-redacted name r =
    let server =
      redact_attr-optional (not (is_nil r.server)) (attr (codes "server") (string r.server)) refl in
    let session =
      redact_attr-optional (not (is_nil r.session_id))
        (attr (codes "sessionId") (string r.session_id)) refl in
    let port =
      redact_attr-optional (is_positive r.local_port) (attr (codes "localPort") (int r.local_port))
        refl in
    let targets =
      redact_attr-optional (not (is_nil r.targets))
        (attr (codes "targetCount") (int (pos (length r.targets)))) refl in
    let rest = map-both _ _ server (map-both _ _ session (map-both _ _ port targets)) in
    ap
      (λ (l : List Attr).
        attr (codes "command") (string name) ∷ attr (codes "status") (string r.status) ∷ l)
      rest

module _ {S : Type 0} (con : Console S) (name : Text) (r : Response) (s : S) where
  abbrev logged : Text → Text → S
  logged level format =
      if equal level (codes "info") || equal level (codes "debug")
      then con.log (if equal format (codes "json") then as_json else as_text) (attributes name r) s
      else s

  -- There is a logger of this level and this format, with which the log is as told.
  abbrev pub IsLogged : Text → Text → Type 0
  IsLogged level format =
      (l : Logger) × (new format level ≡ ok l)
      × (level_name l.level ≡ level)
      × (format_name l.format ≡ format)
      × (log_with con (new format level) (attributes name r) s ≡ logged level format)

  -- Nothing is redacted in a line that is logged.
  as_it_is :
      (f : Format)
      → con.log f (map redact_attr (attributes name r)) s ≡ con.log f (attributes name r) s
  as_it_is f = ap (λ (l : List Attr). con.log f l s) (attributes-redacted name r)

  abbrev formats : List Text
  formats = codes "text" ∷ codes "json" ∷ []

  abbrev levels : List Text
  levels = codes "error" ∷ codes "warn" ∷ codes "info" ∷ codes "debug" ∷ []

  levels-IsLogged : All (λ level. All (λ format. IsLogged level format) formats) levels
  unfolding new equal log_attrs
  levels-IsLogged = (
    ((_, refl, refl, refl, refl), ((_, refl, refl, refl, refl), tt)),
    (
      ((_, refl, refl, refl, refl), ((_, refl, refl, refl, refl), tt)),
      (
        ((_, refl, refl, refl, as_it_is as_text), ((_, refl, refl, refl, as_it_is as_json), tt)),
        (
          ((_, refl, refl, refl, as_it_is as_text), ((_, refl, refl, refl, as_it_is as_json), tt)),
          tt,
        ),
      ),
    ),
  )

  -- Options that were accepted always give a logger, of the level and the format that they name: at
  -- the levels `info` and `debug` a command logs its attributes in this format, none of them
  -- redacted, and at the others nothing.
  pub log_command-validate_options :
      (o : CliOptions)
      → validate_options o ≡ ok tt
      → (l : Logger) × (new o.log_format o.log_level ≡ ok l)
        × (level_name l.level ≡ o.log_level)
        × (format_name l.format ≡ o.log_format)
        × (log_command con o name r s ≡ logged o.log_level o.log_format)
  unfolding log_command validate_options
  log_command-validate_options o h =
      let (_, _, h1) =
        >>=-eq-ok (fail_if (not (one_of o.output formats)) (invalid_output o.output)) _ h in
      let (_, format_ok, level_ok) =
        >>=-eq-ok (fail_if (not (one_of o.log_format formats)) (invalid_log_format o.log_format)) _
          h1 in
      let at_level =
        one_of-All (λ level. All (λ format. IsLogged level format) formats) o.log_level levels
          levels-IsLogged (passed _ _ level_ok) in
      one_of-All (λ format. IsLogged o.log_level format) o.log_format formats at_level
        (passed _ _ format_ok)
