-- ===== src/Cli/Host.antt =====
-- cmd/dev-connect/main.go: the programs that a command runs, with the options of the command and
-- what the system tells of itself. A deadline of a command reaches a process as an event of it.
pub mod Approval
use dev_connect.Prelude.{
  Bool, true, false, not, Option, none, some, List, [], ◌∷◌, ◌++◌, if◌then◌else◌, is_nil, ℤ, pos,
}
use dev_connect.Text.{Text, codes}
use dev_connect.Result.{Error, Result, ok, err, parse_local_port_failed}
use dev_connect.Map.{Map}
use dev_connect.World.{World}
use dev_connect.Port.{Allocation, Listened, allocate_loopback, default_port_probe, loopback}
use dev_connect.Config.{Config, Cluster}
use dev_connect.Config.Load.{Platform, Loaded, load}
use dev_connect.Connect.{Prepared}
use dev_connect.Proxy.{Env}
use dev_connect.Kubectl.{PortForwardOptions}
use dev_connect.Kubectl.Resolve.{FileInfo, ResolveOptions, resolve_local_executable}
use dev_connect.Kubectl.Process.{Exec, ExecutableRunner, executable_runner, Completed}
use dev_connect.Tunnel.{Started, start}
use dev_connect.Preflight.{Outcome, validate}
use dev_connect.Vscode.Launcher.{resolve_launcher}
use dev_connect.Vscode.Launch.{launch, set_up_remote}
use dev_connect.Vscode.Setup.{RemoteCommand, Settings}
use dev_connect.Cli.{CliOptions}
use dev_connect.Cli.Environment.{kubectl_base_env_from}
use dev_connect.Cli.Location.{loader}

-- The packages os, os/exec and runtime, as far as they only tell: the environment, the path of the
-- program itself, files, and the search path's `code`.
pub record Host : Type 0 where
  pub getenv : Text → Text
  pub environ : Env
  pub goos : Text
  pub executable : Option Text
  pub stat : Text → Option FileInfo
  pub code_in_path : Option Text
  pub file_exists : Text → Bool

-- `""` where the path is not known.
abbrev pub own_path : Option Text → Text
own_path none = []
own_path (some p) = p

abbrev pub resolve_options : Host → CliOptions → Cluster → ResolveOptions
resolve_options h o cluster = record {
  explicit_path = o.kubectl_path;
  env_path = h.getenv (codes "DEV_CONNECT_KUBECTL_PATH");
  configured_path = cluster.kubectl_path;
  dev_connect_path = own_path h.executable;
  path_env = h.getenv (codes "PATH");
  goos = h.goos;
  additional_default = [];
}

unfoldable pub kubectl_path : Host → CliOptions → Cluster → Result Text
unfolding resolve_local_executable
kubectl_path h o cluster = resolve_local_executable h.stat (resolve_options h o cluster)

unfoldable pub kubectl_base_env : Host → Cluster → Env
unfolding kubectl_base_env_from
kubectl_base_env h cluster = kubectl_base_env_from h.environ h.goos cluster

-- The runner with the path that was found.
unfoldable pub kubectl_runner : Host → Cluster → Text → ExecutableRunner
unfolding kubectl_base_env
kubectl_runner h cluster path = record { path = path; base_env = some (kubectl_base_env h cluster) }

-- The port-forward of a prepared session.
unfoldable pub port_forward_options : Cluster → Prepared → PortForwardOptions
port_forward_options cluster p = record {
  namespace = p.gateway.namespace;
  service = p.gateway.service;
  local_port = p.local_port;
  remote_port = p.gateway.port;
  context_name = cluster.kubernetes_context;
  kubeconfig = cluster.kubeconfig;
}

-- The port that the tests ask for, read by `strconv.Atoi`, or one that the listener gives.
abbrev test_port : Text → Option ℤ → Result Allocation
test_port value none = err (parse_local_port_failed value)
test_port value (some n) = ok (record { host = loopback; port = n })

unfoldable pub allocate_port : Host → (Text → Option ℤ) → Listened → Result Allocation
unfolding allocate_loopback default_port_probe
allocate_port h atoi listened =
    let value = h.getenv (codes "DEV_CONNECT_TEST_LOCAL_PORT") in
    if not (is_nil value)
    then test_port value (atoi value)
    else allocate_loopback (default_port_probe listened)

unfoldable pub load_config :
    (Text → Option Config) → Platform → Host → CliOptions → World → Result Loaded
unfolding load
load_config parse_yaml p h o w =
    load parse_yaml p (loader o.config_path (h.getenv (codes "DEV_CONNECT_CONFIG"))) w

module _ {S : Type 0} (exec : Exec S) (h : Host) (o : CliOptions) where
  -- What `Validate` gives, without the checks that were passed.
  abbrev pub error_of : Outcome × S → Result (Unit {0}) × S
  error_of ((_, none), s) = (ok tt, s)
  error_of ((_, some e), s) = (err e, s)

  abbrev pub preflight_with : Cluster → Prepared → Result Text → S → Result (Unit {0}) × S
  preflight_with cluster p (err e) s = (err e, s)
  preflight_with cluster p (ok path) s = error_of (
      validate (executable_runner exec (kubectl_runner h cluster path))
        (port_forward_options cluster p) s)

  unfoldable pub run_preflight : Cluster → Prepared → S → Result (Unit {0}) × S
  unfolding kubectl_path validate executable_runner kubectl_runner port_forward_options
  run_preflight cluster p s = preflight_with cluster p (kubectl_path h o cluster) s

  abbrev pub tunnel_with : Cluster → Prepared → Result Text → S → Result Started × S
  tunnel_with cluster p (err e) s = (err e, s)
  tunnel_with cluster p (ok path) s =
      start (executable_runner exec (kubectl_runner h cluster path)) (pos 3)
        (record { port_forward = port_forward_options cluster p; reconnect = not o.no_reconnect }) s

  unfoldable pub start_tunnel : Cluster → Prepared → S → Result Started × S
  unfolding kubectl_path start executable_runner kubectl_runner port_forward_options
  start_tunnel cluster p s = tunnel_with cluster p (kubectl_path h o cluster) s

  abbrev launch_with : Text → Text → Result Text → S → Result (Unit {0}) × S
  launch_with target_alias user_data_dir (err e) s = (err e, s)
  launch_with target_alias user_data_dir (ok path) s =
      launch exec path none
        (record { target_alias = target_alias; user_data_dir = user_data_dir; env = [] }) s

  -- `DEV_CONNECT_CODE_PATH`, or the launcher that is found.
  unfoldable pub launch_vscode : Config → Text → Text → S → Result (Unit {0}) × S
  unfolding launch resolve_launcher
  launch_vscode c target_alias user_data_dir s =
      let code_path = h.getenv (codes "DEV_CONNECT_CODE_PATH") in
      let path : Result Text =
        if not (is_nil code_path)
        then ok code_path
        else resolve_launcher h.code_in_path h.file_exists (record {
          goos = h.goos;
          local_app_data = h.getenv (codes "LOCALAPPDATA");
          configured_path = c.vscode.launcher_path;
        }) in
      launch_with target_alias user_data_dir path s

  unfoldable pub configure_remote_vscode :
      (RemoteCommand → S → Completed × S)
      → (Settings → Text)
      → Config
      → Text
      → Text
      → S
      → Result (Unit {0}) × S
  unfolding set_up_remote
  configure_remote_vscode run marshal c target_alias ssh_config_path s =
      let setup = c.vscode.remote_setup in
      set_up_remote run marshal
        (record {
          target_alias = target_alias;
          ssh_config_path = ssh_config_path;
          ssh_path = setup.ssh_path;
          http_proxy = setup.http_proxy;
          https_proxy = setup.https_proxy;
          no_proxy = setup.no_proxy;
          proxy_support = setup.proxy_support;
          batch_mode = setup.batch_mode;
        })
        s
