-- ===== src/Cli/Announce.antt =====
-- cmd/dev-connect/main.go: what a command logs and prints at its end, and the commands that do
-- nothing else.
pub mod Logged
use dev_connect.Prelude.{
  ℕ, Bool, true, false, Option, none, some, List, [], ◌∷◌, ◌++◌, map, ◌≡◌, refl, ap, arith,
  if◌then◌else◌, is_nil, not, ◌||◌, is_positive, length, All, pos, Bool-cases, inl, inr, subst, sym,
}
use dev_connect.Text.{Text, codes, equal, equal_iff, to_lower, contains}
use dev_connect.Text.Numbers.{decimal, decimal_int}
use dev_connect.Map.{Map}
use dev_connect.Result.{Result, ok, err, ◌>>=◌}
use dev_connect.Session.{State}
use dev_connect.Config.Load.{Loaded}
use dev_connect.Output.{Response, Target, Value, empty_response, api_version, write_json}
use dev_connect.Logging.{
  Logger, Format, as_text, as_json, Level, Attr, AttrValue, string, int, new, log_attrs,
}
use dev_connect.Cli.{CliOptions, one_of, validate_options}
use dev_connect.Cli.Listing.{list_response}

-- The streams of a command: its standard output, with the printer of JSON, and its log.
pub record Console (S : Type 0) : Type 0 where
  pub print : Text → S → Result (Unit {0}) × S
  pub encode : Map Value → S → Result (Unit {0}) × S
  pub log : Format → List Attr → S → S

-- What the program was built from and for.
pub record Build : Type 0 where
  pub version : Text
  pub commit : Text
  pub build_date : Text
  pub go_version : Text
  pub os : Text
  pub arch : Text

-- The attributes of a log line, which stand in no group.
abbrev pub attr : Text → AttrValue → Attr
attr key value = record { groups = []; key = key; value = value }

abbrev pub optional : Bool → Attr → List Attr
optional b a = if b then a ∷ [] else []

unfoldable pub attributes : Text → Response → List Attr
attributes name r =
    attr (codes "command") (string name)
    ∷ attr (codes "status") (string r.status)
    ∷ (optional (not (is_nil r.server)) (attr (codes "server") (string r.server))
        ++ (optional (not (is_nil r.session_id)) (attr (codes "sessionId") (string r.session_id))
            ++ (optional (is_positive r.local_port) (attr (codes "localPort") (int r.local_port))
                ++ optional (not (is_nil r.targets))
                    (attr (codes "targetCount") (int (pos (length r.targets)))))))

module _ {S : Type 0} (con : Console S) where
  abbrev pub write_log : Logger → Option (List Attr) → S → S
  write_log logger none s = s
  write_log logger (some attrs) s = con.log logger.format attrs s

  abbrev pub log_with : Result Logger → List Attr → S → S
  log_with (err e) attrs s = s
  log_with (ok logger) attrs s = write_log logger (log_attrs logger Level.info attrs) s

  unfoldable pub log_command : CliOptions → Text → Response → S → S
  unfolding new log_attrs attributes
  log_command o name r s = log_with (new o.log_format o.log_level) (attributes name r) s

  abbrev then_print : (S → Result (Unit {0}) × S) → Result (Unit {0}) × S → Result (Unit {0}) × S
  then_print rest (err e, s) = (err e, s)
  then_print rest (ok t, s) = rest s

  -- The loop over the targets.
  pub print_names : List Target → S → Result (Unit {0}) × S
  print_names [] s = (ok tt, s)
  print_names (t ∷ ts) s = then_print (print_names ts) (con.print (t.name ++ b'\n' ∷ []) s)

  unfoldable pub write_response : CliOptions → Response → S → Result (Unit {0}) × S
  unfolding equal print_names write_json
  write_response o r s =
      if equal o.output (codes "json")
      then write_json con.encode r s
      else if not (is_nil r.server)
      then con.print (r.status ++ b' ' ∷ r.server ++ b'\n' ∷ []) s
      else if not (is_nil r.targets)
      then print_names r.targets s
      else con.print (r.status ++ b'\n' ∷ []) s

  -- The end of a command that has an answer.
  unfoldable pub announce : CliOptions → Text → Result Response → S → Result (Unit {0}) × S
  unfolding log_command write_response
  announce o name (err e) s = (err e, s)
  announce o name (ok r) s = write_response o r (log_command o name r s)

  unfoldable pub list_command : CliOptions → Result Loaded → S → Result (Unit {0}) × S
  unfolding announce list_response
  list_command o loaded s =
      announce o (codes "list") (loaded >>= λ (l : Loaded). ok (list_response o l.config)) s

  unfoldable pub validate_command : CliOptions → Result Loaded → S → Result (Unit {0}) × S
  unfolding announce
  validate_command o loaded s =
      announce o (codes "config validate")
        (loaded >>= λ (l : Loaded). ok (record empty_response { status = codes "valid" })) s

  unfoldable pub print_version : Build → S → Result (Unit {0}) × S
  unfolding write_json
  print_version b s =
      write_json con.encode
        (record empty_response {
          api_version = api_version;
          status = codes "ok";
          version = b.version;
          commit = b.commit;
          build_date = b.build_date;
          go_version = b.go_version;
          os = b.os;
          arch = b.arch;
        })
        s
