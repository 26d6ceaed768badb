-- ===== src/Examples/Commands.antt =====
-- Runs of internal/vscode and cmd/dev-connect.
use dev_connect.Prelude.{
  List, true, false, not, ◌&&◌, none, some, [], ◌∷◌, ◌++◌, ◌≡◌, refl, if◌then◌else◌, is_nil, pos,
  arith,
}
use dev_connect.Text.{Text, codes, has_prefix}
use dev_connect.Result.{ok, err, canceled, session_locked}
use dev_connect.World.{World}
use dev_connect.World.Frame.{put}
use dev_connect.World.Steps.{pure, raise}
use dev_connect.Config.{Cluster}
use dev_connect.Session.Store.{save, path}
use dev_connect.Connect.{Options, prepare, prepared_of, ssh_options}
use dev_connect.SshConfig.Write.{session_files}
use dev_connect.Kubectl.Resolve.{FileInfo, ResolveOptions, resolve_local_executable}
use dev_connect.Kubectl.Resolve.Found.{IsExecutable, resolve_local_executable-IsExecutable}
use dev_connect.Proxy.{same_name, build_env_for_os}
use dev_connect.Proxy.Seen.{seen, once}
use dev_connect.Vscode.Setup.{export_line}
use dev_connect.Vscode.Setup.Quoting.{read_export, read_export-export_line}
use dev_connect.Cli.{CliOptions, no_cluster}
use dev_connect.Cli.Arguments.{
  read_args, supervisor_args, kept, last_flags, read_args-supervisor_args,
}
use dev_connect.Cli.Environment.{kubectl_base_env_from, proxy_config, seen-kubectl_base_env_from}
use dev_connect.Cli.Sessions.{disconnect}
use dev_connect.Cli.Status.{disconnected}
use dev_connect.Cli.Supervisor.{
  Exit, run_tunnel_supervisor, pauses_from, run_tunnel_supervisor-pauses_from,
}
use dev_connect.Cli.Connecting.{Programs, finish_connect, connect}
use dev_connect.Cli.Connecting.Failure.{IsDiscarded, finish_connect_failed}
use dev_connect.Cli.Connecting.Second.{connect-prepare}
use dev_connect.Cli.Announce.{Console}
use dev_connect.Cli.Commands.{
  end_with, disconnect_command, status_command, status_command-disconnect_command,
}
use dev_connect.Examples.Machine.{fresh, state, with_process, prepare_options}
use dev_connect.Examples.Configurations.{prepared}
use dev_connect.Examples.Json.{codec}

abbrev kubectl_options : ResolveOptions
kubectl_options = record {
  explicit_path = [];
  env_path = [];
  configured_path = [];
  dev_connect_path = [];
  path_env = codes "/b";
  goos = codes "linux";
  additional_default = [];
}

abbrev program : FileInfo
program = record { is_dir = false; mode = 0o755 }

resolve_local_executable-IsExecutable_example :
    IsExecutable (λ p. some program) (codes "linux") (codes "/b/kubectl")
unfolding resolve_local_executable
resolve_local_executable-IsExecutable_example =
    resolve_local_executable-IsExecutable (λ p. some program) kubectl_options refl

abbrev with_data : World
with_data = put fresh (codes "/d/x") (codes "x") 0o600

read_export-export_line_example :
    read_export (export_line (codes "A") (codes "it's $x") ++ b'\n' ∷ codes "b")
    ≡ some (codes "A", (codes "it's $x", b'\n' ∷ codes "b"))
read_export-export_line_example =
    read_export-export_line (codes "A") (codes "it's $x") (codes "b") (omega arith)

abbrev cluster : Cluster
cluster = record no_cluster { kubeconfig = codes "/kube" }

seen-kubectl_base_env_from_example :
    seen
      (codes "linux")
      (kubectl_base_env_from (codes "KUBECONFIG=x" ∷ []) (codes "linux") cluster)
      (codes "KUBECONFIG")
    ≡ (if not (is_nil cluster.kubeconfig)
          && same_name (codes "linux") (codes "KUBECONFIG") (codes "KUBECONFIG")
        then some (codes "/kube")
        else seen
            (codes "linux")
            (build_env_for_os
              (codes "linux")
              (codes "KUBECONFIG=x" ∷ [])
              (proxy_config cluster.proxy))
            (codes "KUBECONFIG"))
unfolding once
seen-kubectl_base_env_from_example =
    seen-kubectl_base_env_from (codes "KUBECONFIG=x" ∷ []) (codes "linux") cluster
      (codes "KUBECONFIG") refl

-- A machine on which a session is stored, whose process runs.
abbrev with_session : World
with_session = (save codec (codes "/s") state with_process).1

abbrev cli : CliOptions
cli = record {
  config_path = [];
  context_name = codes "k";
  cluster_name = [];
  gateway_name = [];
  log_level = codes "info";
  log_format = codes "text";
  output = codes "text";
  no_code = false;
  no_reconnect = false;
  kubectl_path = [];
  timeout = 30;
}

-- A console that keeps what is printed.
abbrev console : Console (List Text)
console = record { print = λ t s. (ok tt, t ∷ s); encode = λ m s. (ok tt, s); log = λ f attrs s. s }

abbrev ended_session : World
ended_session = (disconnect codec (codes "/s") with_session).1

status_command-disconnect_command_example :
    status_command console cli
      (λ t. [])
      codec
      (ok (codes "/s"))
      (ended_session, codes "disconnected\n" ∷ [])
    ≡ end_with console cli
        (codes "status")
        (ok disconnected, ended_session)
        (codes "disconnected\n" ∷ [])
unfolding disconnect_command disconnect save path
status_command-disconnect_command_example =
    status_command-disconnect_command console cli (λ t. []) codec (codes "/s") with_session [] refl
      refl

abbrev ended : Exit
ended = record { error = some canceled; is_canceled = false; is_canceled_in_pause = false }

run_tunnel_supervisor-pauses_from_example :
    run_tunnel_supervisor true false (ended ∷ ended ∷ [])
    ≡ record { pauses = pauses_from 0 2; ended = none }
run_tunnel_supervisor-pauses_from_example =
    run_tunnel_supervisor-pauses_from (ended ∷ ended ∷ []) refl

-- VS Code cannot be launched.
abbrev pub programs : Programs
programs = record {
  preflight = λ c p. pure tt;
  start_supervisor = λ c p. pure (record { ready = true; attempts = 1; pid = pos 7 });
  configure_remote = λ c t p. pure tt;
  launch = λ c t p. raise canceled;
  default_user_config_path = ok (codes "/u");
  marshal = λ k v. v;
}

finish_connect_failed_example :
    IsDiscarded
      (codes "/s")
      (finish_connect codec programs cli prepare_options cluster prepared fresh).1
unfolding finish_connect prepared_of path session_files ssh_options
finish_connect_failed_example =
    finish_connect_failed codec programs cli prepare_options prepared cluster fresh refl

-- What `Prepare` leaves behind on an empty machine, and another target in the same directory.
abbrev being_prepared : World
being_prepared = (prepare codec prepare_options fresh).1

abbrev another : Options
another = record prepare_options { target_name = codes "other"; reconnect = false }

connect-prepare_example :
    connect codec programs cli another being_prepared ≡ (err session_locked, being_prepared)
unfolding prepare prepared_of path
connect-prepare_example =
    connect-prepare codec programs cli prepare_options another fresh {p = prepared} refl refl refl
      refl

read_args-supervisor_args_example :
    read_args (supervisor_args cli (codes "/c") (codes "dev") (codes "/s") (codes "/r"))
    ≡ some (record {
      flags =
          kept (codes "--config") (codes "/c")
          ++ (kept (codes "--context") (codes "k")
              ++ (kept (codes "--cluster") []
                  ++ (kept (codes "--gateway") []
                      ++ (kept (codes "--kubectl-path") []
                          ++ (kept (codes "--log-level") (codes "info")
                              ++ (kept (codes "--log-format") (codes "text")
                                  ++ last_flags false (codes "/s") (codes "/r")))))));
      others = codes "tunnel-supervisor" ∷ codes "dev" ∷ [];
    })
unfolding has_prefix
read_args-supervisor_args_example =
    read_args-supervisor_args cli (codes "/c") (codes "dev") (codes "/s") (codes "/r") refl
