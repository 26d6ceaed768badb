-- ===== src/Examples/Configurations.antt =====
-- Runs of internal/config and internal/connect.
use dev_connect.Prelude.{List, [], true, some, Option, ◌≡◌, refl, pos}
use dev_connect.Text.{Text, codes}
use dev_connect.Result.{ok, is_ok}
use dev_connect.World.{World, update}
use dev_connect.World.Frame.{put}
use dev_connect.Config.{Config}
use dev_connect.Config.Validate.{validate, with_host_key_ref}
use dev_connect.Config.WellFormed.{with_refs, WellFormed, validate-WellFormed, WellFormed-validate}
use dev_connect.Config.Load.{Platform, Loader, Loaded, candidates, load}
use dev_connect.Config.Load.Precedence.{Found, load-Found}
use dev_connect.SshConfig.Write.{session_files}
use dev_connect.Session.Store.{path}
use dev_connect.Session.Store
use dev_connect.Port.{Allocation}
use dev_connect.Connect.{Prepared, Resolved, resolve, prepare, prepared_of, ssh_options}
use dev_connect.Connect.Resolve.{validate-resolve}
use dev_connect.Cli.Location.{config_location}
use dev_connect.Cli.Location.Source.{load-config_location}
use dev_connect.Examples.Machine.{fresh, config, prepare_options}
use dev_connect.Examples.Json.{codec}

validate-WellFormed_example :
    (config ≡ record config { targets = with_refs config.targets }) × WellFormed config
unfolding validate with_host_key_ref
validate-WellFormed_example = validate-WellFormed config refl

WellFormed-validate_example :
    validate config ≡ ok (record config { targets = with_refs config.targets })
unfolding validate with_host_key_ref
WellFormed-validate_example = WellFormed-validate config (record {
  version = refl;
  document = refl;
  interval = refl;
  count_max = refl;
  contexts = (
    record {
      cluster_named = refl;
      gateway_named = refl;
      cluster_known = refl;
      gateway_known = refl;
    },
    tt,
  );
  targets = (record { gateway_named = refl; gateway_known = refl; host_key_known = refl }, tt);
  gateways = (record { namespace_named = refl; service_named = refl; port_positive = refl }, tt);
})

-- Every text is the document of one configuration.
abbrev parse_yaml : Text → Option Config
parse_yaml t = some config

abbrev platform : Platform
platform = record { goos = codes "linux"; home = codes "/h"; app_data = [] }

abbrev loader : Loader
loader = record {
  explicit_path = [];
  env_config = codes "/e";
  default_dir = [];
  development_dir = [];
}

abbrev with_file : World
with_file = put fresh (codes "/e") (codes "y") 0o644

abbrev from_env : Loaded
from_env = record { config = config; path = codes "/e" }

load-Found_example :
    (ps : List Text) × (c : Config) × (candidates platform loader ≡ ok ps)
    × Found parse_yaml with_file ps from_env
    × (validate c ≡ ok config)
unfolding load validate update with_host_key_ref
load-Found_example = load-Found parse_yaml platform loader with_file {r = from_env} refl

validate-resolve_example : is_ok (resolve config (codes "dev") []) ≡ true
unfolding validate with_host_key_ref
validate-resolve_example = validate-resolve config (codes "dev") refl refl refl refl

abbrev resolved : Resolved
resolved = record {
  target = record {
    gateway = codes "g";
    user = codes "u";
    identity_file = [];
    host_key_ref = codes "dev";
  };
  gateway_name = codes "g";
  gateway = record { namespace = codes "n"; service = codes "s"; port = pos 22 };
  host_key = codes "ssh-ed25519 A";
}

abbrev allocation : Allocation
allocation = record { host = codes "127.0.0.1"; port = pos 2222 }

abbrev pub prepared : Prepared
prepared =
    prepared_of prepare_options resolved allocation
      (session_files (ssh_options prepare_options resolved allocation))

abbrev world : World
world = (prepare codec prepare_options fresh).1

load-config_location_example : from_env.path ≡ codes "/e"
unfolding load validate update with_host_key_ref config_location
load-config_location_example =
    load-config_location parse_yaml with_file platform [] (codes "/e") {r = from_env} refl refl refl
      refl
