-- ===== src/Cli/Execute.antt =====
-- cmd/dev-connect/main.go: the commands of the program, and the check of the options in front of each
-- of them. Which command it is and what its arguments are is read by cobra. The hidden command of the
-- supervisor is in Cli.Supervisor.
pub mod Success
use dev_connect.Prelude.{ℕ, ℤ, not, Option, none, List, [], ◌∷◌, ◌++◌}
use dev_connect.Text.{Text, codes}
use dev_connect.Result.{Result, ok, err}
use dev_connect.World.{World}
use dev_connect.Port.{Listened}
use dev_connect.Session.{Time}
use dev_connect.Session.Store.{Codec}
use dev_connect.Config.{Config}
use dev_connect.Config.Load.{Loaded, Platform, default_dir}
use dev_connect.Connect.{Options, session_id}
use dev_connect.Cli.{CliOptions, validate_options, session_dir, ssh_dir}
use dev_connect.Cli.Host.{Host, load_config, allocate_port}
use dev_connect.Cli.Location.{config_location}
use dev_connect.Cli.Announce.{Console, Build, list_command, validate_command, print_version}
use dev_connect.Cli.Commands.{disconnect_command, status_command, connect_command}
use dev_connect.Cli.Connecting.Run.{System, programs_of}

pub data Action : Type 0 where
  connecting : Text → Action
  disconnecting reporting listing versioning locating validating : Action

-- What the commands have of the machine: the packages behind them, the programs that they run, and
-- the values that are fixed at the start.
pub record Setting : Type 0 where
  pub codec : Codec
  pub parse_yaml : Text → Option Config
  pub host : Host
  pub platform : Platform
  pub system : System
  pub atoi : Text → Option ℤ
  pub listened : Listened
  pub to_hex : List ℕ → Text
  pub random : Option (List ℕ)
  pub now : Time
  pub uptime : Time → Text
  pub build : Build

-- The session's directory is never empty in a command, so that of its SSH files is known.
abbrev pub known : Result Text → Text
known (ok dir) = dir
known (err e) = []

unfoldable pub session_dir_for : Setting → Result Text
unfolding session_dir default_dir
session_dir_for v =
    session_dir (v.host.getenv (codes "DEV_CONNECT_SESSION_DIR")) (default_dir v.platform)

-- The options of `Prepare`.
unfoldable pub connect_options : Setting → CliOptions → Text → Loaded → Text → Options
unfolding ssh_dir allocate_port session_id
connect_options v o target loaded dir = record {
  config = loaded.config;
  target_name = target;
  context = o.context_name;
  gateway_name = o.gateway_name;
  session_dir = dir;
  ssh_dir = known (ssh_dir (v.host.getenv (codes "DEV_CONNECT_SSH_DIR")) dir);
  allocation = allocate_port v.host v.atoi v.listened;
  now = v.now;
  session_id = session_id none v.to_hex v.random v.now;
  reconnect = not o.no_reconnect;
}

module _ {S : Type 0} (con : Console S) (o : CliOptions) (v : Setting) where
  -- A command that only prints.
  abbrev pub on_console : (S → Result (Unit {0}) × S) → World × S → Result (Unit {0}) × (World × S)
  on_console f (w, s) = let r = f s in (r.0, (w, r.1))

  abbrev pub print_line : Result Text → S → Result (Unit {0}) × S
  print_line (err e) s = (err e, s)
  print_line (ok t) s = con.print (t ++ b'\n' ∷ []) s

  abbrev pub options_of : Text → Result Loaded → Result (Text → Options)
  options_of target (err e) = err e
  options_of target (ok l) = ok (connect_options v o target l)

  -- The supervisor is given the path of the configuration that was loaded.
  abbrev pub loaded_path : Result Loaded → Text
  loaded_path (err e) = []
  loaded_path (ok l) = l.path

  -- The command of an action.
  unfoldable pub dispatch : Action → World × S → Result (Unit {0}) × (World × S)
  unfolding connect_command disconnect_command status_command list_command validate_command
      print_version load_config config_location programs_of session_dir_for connect_options
  dispatch (connecting target) (w, s) =
      let loaded = load_config v.parse_yaml v.platform v.host o w in
      connect_command con o v.uptime v.codec (programs_of v.system v.host o (loaded_path loaded))
        (session_dir_for v) (options_of target loaded) (w, s)
  dispatch disconnecting x = disconnect_command con o v.codec (session_dir_for v) x
  dispatch reporting x = status_command con o v.uptime v.codec (session_dir_for v) x
  dispatch listing (w, s) =
      on_console (list_command con o (load_config v.parse_yaml v.platform v.host o w)) (w, s)
  dispatch versioning x = on_console (print_version con v.build) x
  dispatch locating (w, s) =
      on_console
        (print_line
          (config_location v.platform o.config_path (v.host.getenv (codes "DEV_CONNECT_CONFIG")) w))
        (w, s)
  dispatch validating (w, s) =
      on_console (validate_command con o (load_config v.parse_yaml v.platform v.host o w)) (w, s)

  abbrev pub checked : Result (Unit {0}) → Action → World × S → Result (Unit {0}) × (World × S)
  checked (err e) a x = (err e, x)
  checked (ok t) a x = dispatch a x

  -- `PersistentPreRunE`, and the command behind it.
  unfoldable pub execute : Action → World × S → Result (Unit {0}) × (World × S)
  unfolding validate_options dispatch
  execute a x = checked (validate_options o) a x
