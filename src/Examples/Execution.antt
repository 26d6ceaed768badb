-- ===== src/Examples/Execution.antt =====
-- A run of the command `connect` from its flags to its answer.
use dev_connect.Prelude.{none, some, [], refl, pos, if◌then◌else◌}
use dev_connect.Text.{Text, codes, equal}
use dev_connect.Result.{ok}
use dev_connect.Config.Validate.{with_host_key_ref}
use dev_connect.World.{World}
use dev_connect.Port.{at_port}
use dev_connect.Session.Store.{path}
use dev_connect.Cli.Commands.{connect_command}
use dev_connect.Cli.Connecting.{connect}
use dev_connect.Cli.Connecting.Run.{programs_of}
use dev_connect.Cli.Host.{Host}
use dev_connect.Cli.Announce.{Console}
use dev_connect.Cli.Execute.{Setting, execute}
use dev_connect.Cli.Execute.Success.{Succeeded, execute-Succeeded}
use dev_connect.Examples.Machine.{fresh, config}
use dev_connect.Examples.Json.{codec}
use dev_connect.Examples.Processes.{host, cli, system}

-- The configuration stands at `/c`.
abbrev machine : World
machine = record fresh {
  file = λ q. if equal q (codes "/c") then some (record { content = []; mode = 0o600 }) else none;
}

abbrev environment : Host
environment = record host {
  getenv = λ key.
      if equal key (codes "DEV_CONNECT_CONFIG")
      then codes "/c"
      else if equal key (codes "DEV_CONNECT_SESSION_DIR")
      then codes "/s"
      else if equal key (codes "DEV_CONNECT_TEST_LOCAL_PORT")
      then codes "2222"
      else host.getenv key;
}

abbrev setting : Setting
setting = record {
  codec = codec;
  parse_yaml = λ t. some config;
  host = environment;
  platform = record { goos = codes "linux"; home = codes "/h"; app_data = [] };
  system = system;
  atoi = λ t. some (pos 2222);
  listened = at_port (pos 2222);
  to_hex = λ b. [];
  random = none;
  now = 5;
  uptime = λ t. [];
  build = record {
    version = codes "dev";
    commit = codes "c";
    build_date = codes "d";
    go_version = codes "go";
    os = codes "linux";
    arch = codes "amd64";
  };
}

abbrev console : Console Text
console = record { print = λ t s. (ok tt, s); encode = λ m s. (ok tt, s); log = λ f attrs s. s }

execute-Succeeded_example : Succeeded console cli setting (codes "dev") machine
unfolding execute connect_command connect programs_of equal path with_host_key_ref
execute-Succeeded_example = execute-Succeeded console cli setting (codes "dev") machine [] refl
