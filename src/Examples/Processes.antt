-- ===== src/Examples/Processes.antt =====
-- Runs of kubectl as a process, of the supervisor and of the whole command `connect`.
use dev_connect.Prelude.{
  List, true, false, none, some, [], ◌∷◌, ◌≡◌, refl, pos, ◌≤◌, arith, if◌then◌else◌, inr, All,
  length,
}
use dev_connect.Text.{Text, codes, equal, contains, index, has_prefix}
use dev_connect.Result.{ok, canceled}
use dev_connect.World.{World}
use dev_connect.Config.{Cluster}
use dev_connect.Connect.{prepare}
use dev_connect.Session.Store.{path}
use dev_connect.Kubectl.{port_forward_service_command}
use dev_connect.Kubectl.Process.{Exec, ExecutableRunner, executable_runner}
use dev_connect.Kubectl.Process.Pipes
use dev_connect.Kubectl.Process.Logs
use dev_connect.Kubectl.Process.Channel.{begun, later, scan_stdout, receive_ready, start}
use dev_connect.Kubectl.Process.Channel
use dev_connect.Kubectl.Process.Channel.Invariant.{Inv, Reach-Inv}
use dev_connect.Kubectl.Process.Channel.Refines.{ExplainedOf, Reach-Explained}
use dev_connect.Kubectl.Process.Channel.Streams.{StreamsOf}
use dev_connect.Tunnel.{StartOptions, Started, is_ready_output}
use dev_connect.Tunnel
use dev_connect.Tunnel.Executable.{Forwarding, start-Forwarding}
use dev_connect.Cli.{CliOptions, selected_cluster}
use dev_connect.Cli.Host.{Host, kubectl_path, kubectl_base_env, port_forward_options}
use dev_connect.Cli.Supervisor.{Exit, run_tunnel_supervisor}
use dev_connect.Cli.Supervisor.Bounds.{IsPause, run_tunnel_supervisor-IsPause}
use dev_connect.Cli.Supervisor.PortForward.{
  Scan, scan_supervisor_output, scanned, scan_supervisor_output-scanned,
}
use dev_connect.Cli.Supervisor.Session.{plan_supervision, plan_supervision-prepare}
use dev_connect.Cli.Sessions.{disconnect}
use dev_connect.Cli.Sessions.RoundTrip.{is_session_file, disconnect-prepare}
use dev_connect.Cli.Connecting.{connect}
use dev_connect.Cli.Connecting.Run.{System, programs_of, Connected, connect-Connected}
use dev_connect.Examples.Machine.{fresh, prepare_options, config}
use dev_connect.Examples.Json.{codec}
use dev_connect.Examples.Configurations.{prepared}

abbrev pub announced : Text
announced = codes "Forwarding from x"

-- One line is on its way to the loop.
abbrev one_sent : Channel.System
one_sent = record (start (announced ∷ []) []) {
  stdout_left = [];
  channel = Channel.sent_line Pipes.to_stdout announced ∷ [];
}

Reach-Inv_example : Inv is_ready_output (announced ∷ []) [] one_sent
Reach-Inv_example =
    Reach-Inv is_ready_output (announced ∷ []) [] (later begun (scan_stdout refl (omega arith)))

-- The loop has received it and returned.
abbrev seen : Pipes.Captured
seen = Pipes.take_line Pipes.to_stdout announced Pipes.nothing_captured

abbrev forwarded : Channel.System
forwarded = record one_sent {
  channel = [];
  captured = seen;
  process = Channel.killed;
  loop = Channel.returned_ready (Pipes.ended_ready seen);
}

Reach-Explained_example :
    (received : List Channel.Sent) × StreamsOf
      (announced ∷ [])
      []
      is_ready_output
      forwarded
      received
    × ExplainedOf is_ready_output forwarded received
unfolding is_ready_output contains index has_prefix
Reach-Explained_example =
    Reach-Explained is_ready_output (announced ∷ []) []
      (later (later begun (scan_stdout refl (omega arith))) (receive_ready refl refl refl))

-- A kubectl that answers `yes` and forwards at once.
abbrev pub exec : Exec World
exec = record {
  environ = [];
  run = λ c w. (record { stdout = codes "yes"; stderr = []; error = none }, w);
  start_piped = λ c w.
      (inr (record { pid = pos 7; events = Pipes.line Pipes.to_stdout announced Pipes.done }), w);
  start_logged =
      λ c w. (inr (record { pid = pos 7; events = Logs.tick announced [] Logs.done }), w);
  kill = λ pid w. w;
}

abbrev runner : ExecutableRunner
runner = record { path = codes "/k"; base_env = none }

abbrev start_options : StartOptions
start_options = record {
  port_forward = record {
    namespace = codes "n";
    service = codes "s";
    local_port = pos 2222;
    remote_port = pos 22;
    context_name = [];
    kubeconfig = [];
  };
  reconnect = true;
}

start-Forwarding_example :
    (true ≡ true)
    × (w : World) × Forwarding exec runner
        (port_forward_service_command start_options.port_forward)
        w
        (pos 7)
        fresh
unfolding Tunnel.start executable_runner
start-Forwarding_example =
    start-Forwarding exec runner (pos 3) start_options fresh
      {r = record { ready = true; attempts = 1; pid = pos 7 }} refl

abbrev ended : Exit
ended = record { error = some canceled; is_canceled = false; is_canceled_in_pause = true }

run_tunnel_supervisor-IsPause_example :
    All IsPause (run_tunnel_supervisor true false (ended ∷ [])).pauses
    × (length (run_tunnel_supervisor true false (ended ∷ [])).pauses ≤ 1)
run_tunnel_supervisor-IsPause_example = run_tunnel_supervisor-IsPause true false (ended ∷ [])

abbrev before : Scan
before = record { world = fresh; printed = []; is_announced = false }

scan_supervisor_output-scanned_example :
    scan_supervisor_output (codes "/r") (codes "x" ∷ announced ∷ announced ∷ []) before
    ≡ scanned (codes "/r") (codes "x" ∷ announced ∷ announced ∷ []) before
scan_supervisor_output-scanned_example =
    scan_supervisor_output-scanned (codes "/r") (codes "x" ∷ announced ∷ announced ∷ []) before

-- A machine with a kubectl at `/k`, which starts the tunnel without a supervisor.
abbrev pub host : Host
host = record {
  getenv = λ key.
      if equal key (codes "DEV_CONNECT_TEST_INLINE_TUNNEL")
      then codes "1"
      else if equal key (codes "DEV_CONNECT_KUBECTL_PATH")
      then codes "/k"
      else [];
  environ = [];
  goos = codes "linux";
  executable = none;
  stat = λ p. some (record { is_dir = false; mode = 0o755 });
  code_in_path = none;
  file_exists = λ p. false;
}

abbrev pub cli : CliOptions
cli = record {
  config_path = [];
  context_name = codes "k";
  cluster_name = [];
  gateway_name = [];
  log_level = codes "info";
  log_format = codes "text";
  output = codes "text";
  no_code = true;
  no_reconnect = false;
  kubectl_path = [];
  timeout = 30;
}

abbrev pub system : System
system = record {
  exec = exec;
  spawn = λ p args w. none;
  run_script = λ c w. (record { stdout = []; stderr = []; error = none }, w);
  marshal_settings = λ s. [];
  marshal_user_settings = λ k v. v;
  default_user_config_path = ok (codes "/u");
}

connect-Connected_example : Connected codec system host cli [] prepare_options fresh
unfolding connect programs_of equal path
connect-Connected_example = connect-Connected codec system host cli [] prepare_options fresh refl

-- The cluster of the configuration.
abbrev cluster : Cluster
cluster = record {
  kubeconfig = codes "/kube";
  kubernetes_context = codes "kc";
  kubectl_path = [];
  proxy = record { enabled = false; http_proxy = []; https_proxy = []; no_proxy = [] };
}

abbrev after_prepare : World
after_prepare = (prepare codec prepare_options fresh).1

plan_supervision-prepare_example :
    plan_supervision codec host cli
      (codes "/s")
      (codes "/r")
      (codes "dev")
      (ok (record { config = config; path = codes "/c" }))
      after_prepare
    ≡ (
      ok (record {
        kubectl_path = codes "/k";
        env = kubectl_base_env host cluster;
        command = port_forward_service_command (port_forward_options cluster prepared);
        reconnect = true;
      }),
      after_prepare,
    )
unfolding prepare path selected_cluster kubectl_path equal
plan_supervision-prepare_example =
    plan_supervision-prepare codec host cli prepare_options (codes "/c") (codes "/r") fresh
      {p = prepared} {cluster = cluster} {kubectl = codes "/k"} refl refl refl refl refl refl refl

disconnect-prepare_example :
    (disconnect codec (codes "/s") after_prepare).1.file (codes "/other") ≡ (
      if is_session_file codec prepare_options prepared.ssh_files (codes "/other")
      then none
      else fresh.file (codes "/other"))
unfolding prepare path disconnect equal
disconnect-prepare_example =
    disconnect-prepare codec prepare_options (codes "/other") fresh {p = prepared} refl refl refl
      refl
