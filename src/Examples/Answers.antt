-- ===== src/Examples/Answers.antt =====
-- Runs of internal/logging, internal/output and the commands that only answer.
use dev_connect.Prelude.{true, false, some, List, [], ◌∷◌, map, ◌≡◌, refl, pos}
use dev_connect.Text.{Text, codes, equal, to_lower}
use dev_connect.Result.{ok}
use dev_connect.Config.{Config}
use dev_connect.Logging.{Logger, as_json, Level, Attr, AttrValue, string, int, log_attrs, new}
use dev_connect.Logging.Secrets.{hidden, shown, token, log_attrs-SameVisible}
use dev_connect.Logging.Secrets
use dev_connect.Output.{Response, empty_response, response_fields}
use dev_connect.Output.Fields.{read_response, read_response-response_fields}
use dev_connect.Cli.{CliOptions, validate_options}
use dev_connect.Cli.Listing.{list_response}
use dev_connect.Cli.Listing.Abstract.{
  shown as shown_parts, response_shown, list_response-response_shown,
}
use dev_connect.Cli.Announce.{Console, attributes, log_command}
use dev_connect.Cli.Announce.Logged.{level_name, format_name, log_command-validate_options}
use dev_connect.Examples.Machine.{config}

abbrev logger : Logger
logger = record { format = as_json; level = Level.info }

abbrev attr : Text → AttrValue → Attr
attr k v = record { groups = codes "login" ∷ []; key = k; value = v }

log_attrs-SameVisible_example :
    log_attrs logger Level.warn
      (attr (codes "status") (string (codes "ok")) ∷ attr (codes "apiToken") (int (pos 7)) ∷ [])
    ≡ log_attrs logger Level.warn (
        attr (codes "status") (string (codes "ok"))
        ∷ attr (codes "apiToken") (string (codes "xyz"))
        ∷ [])
unfolding to_lower
log_attrs-SameVisible_example = log_attrs-SameVisible logger Level.warn (
    shown (
      hidden
        (record {
          before = codes "api";
          name = codes "token";
          behind = [];
          is_name = token refl;
          at = refl;
        })
        Secrets.nil))

abbrev response : Response
response = record empty_response {
  status = codes "ok";
  local_port = pos 2222;
  reconnect = some false;
  targets = record { name = codes "dev"; gateway = codes "g"; user = [] } ∷ [];
}

read_response-response_fields_example : read_response (response_fields response) ≡ response
read_response-response_fields_example = read_response-response_fields response

-- Targets in some order.
abbrev with_targets : List Text → Config
with_targets names = record config {
  targets =
      map
        (λ name. (
          name,
          record { gateway = codes "g"; user = codes "u"; identity_file = []; host_key_ref = name },
        ))
        names;
}

abbrev one_way : Config
one_way = with_targets (codes "b" ∷ codes "a" ∷ [])

abbrev cli : CliOptions
cli = record {
  config_path = [];
  context_name = [];
  cluster_name = [];
  gateway_name = [];
  log_level = codes "info";
  log_format = codes "json";
  output = codes "text";
  no_code = true;
  no_reconnect = false;
  kubectl_path = [];
  timeout = 30;
}

list_response-response_shown_example :
    list_response cli one_way ≡ response_shown cli (shown_parts one_way)
list_response-response_shown_example = list_response-response_shown cli one_way

-- A console that keeps the log.
abbrev console : Console (List (List Attr))
console = record {
  print = λ t s. (ok tt, s);
  encode = λ m s. (ok tt, s);
  log = λ f attrs s. attrs ∷ s;
}

log_command-validate_options_example :
    (l : Logger) × (new (codes "json") (codes "info") ≡ ok l)
    × (level_name l.level ≡ codes "info")
    × (format_name l.format ≡ codes "json")
    × (log_command console cli (codes "status") response []
        ≡ attributes (codes "status") response ∷ [])
unfolding validate_options equal
log_command-validate_options_example =
    log_command-validate_options console (codes "status") response [] cli refl
