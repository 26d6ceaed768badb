-- ===== src/Cli/Supervisor/Session.antt =====
-- cmd/dev-connect/main.go: what the supervisor makes sure of before its loop, and the command that
-- it runs again and again.
use dev_connect.Prelude.{
  List, Bool, true, false, not, some, ◌≡◌, refl, sym, ap, ◌∙◌, if◌then◌else◌, is_nil,
}
use dev_connect.Text.{Text, equal}
use dev_connect.Result.{
  Result, ok, fail_if, supervisor_session_dir_required, supervisor_ready_file_required,
  target_mismatch, unknown_gateway,
}
use dev_connect.World.{World, Call, equal_refl}
use dev_connect.World.Steps.{M, ◌>>=◌, ◌>>◌, lift, pure}
use dev_connect.Map.{lookup}
use dev_connect.Proxy.{Env}
use dev_connect.Config.{Gateway, Cluster}
use dev_connect.Config.Load.{Loaded}
use dev_connect.Session.{State}
use dev_connect.Session.Store.{Codec, load, path, has_utf8}
use dev_connect.Connect.{Options, Prepared, Resolved, prepare, found, prepared_of, ssh_options}
use dev_connect.Connect.Resolve.{resolve-lookup}
use dev_connect.Port.{Allocation}
use dev_connect.SshConfig.{SessionFiles}
use dev_connect.SshConfig.Write.{session_files}
use dev_connect.Connect.Artifacts.{prepare_ok}
use dev_connect.Kubectl.{Command, PortForwardOptions, port_forward_service_command}
use dev_connect.Cli.{CliOptions, selected_cluster}
use dev_connect.Cli.Supervisor.{Exit, Supervised, supervise}
use dev_connect.Cli.Host.{Host, kubectl_path, kubectl_base_env, port_forward_options}

-- What the loop works with.
pub record Plan : Type 0 where
  pub kubectl_path : Text
  pub env : Env
  pub command : Command
  pub reconnect : Bool

unfoldable pub supervised_options : State → Gateway → Cluster → PortForwardOptions
supervised_options s gateway cluster = record {
  namespace = s.namespace;
  service = gateway.service;
  local_port = s.local_port;
  remote_port = gateway.port;
  context_name = cluster.kubernetes_context;
  kubeconfig = cluster.kubeconfig;
}

unfoldable pub plan_of : Host → CliOptions → State → Gateway → Cluster → Text → Plan
unfolding kubectl_base_env port_forward_service_command supervised_options
plan_of h o s gateway cluster kubectl = record {
  kubectl_path = kubectl;
  env = kubectl_base_env h cluster;
  command = port_forward_service_command (supervised_options s gateway cluster);
  reconnect = if not s.reconnect then false else not o.no_reconnect;
}

-- The checks in front of the loop; `loaded` is what `loadConfig` gives.
unfoldable pub plan_supervision :
    Codec → Host → CliOptions → Text → Text → Text → Result Loaded → M Plan
unfolding selected_cluster load equal lookup kubectl_path plan_of
plan_supervision c h o session_dir ready_file target_name loaded = do
  lift (fail_if (is_nil session_dir) supervisor_session_dir_required)
  lift (fail_if (is_nil ready_file) supervisor_ready_file_required)
  l ← lift loaded
  cluster ← lift (selected_cluster l.config o)
  s ← load c session_dir
  lift (fail_if (not (equal s.target target_name)) (target_mismatch s.target target_name))
  gateway ← lift (found (unknown_gateway s.gateway) (lookup s.gateway l.config.gateways))
  kubectl ← lift (kubectl_path h o cluster)
  pure (plan_of h o s gateway cluster kubectl)

-- `runTunnelSupervisor`: the loop behind the checks, over the ends of the port-forwards that the plan
-- leads to.
unfoldable pub tunnel_supervisor :
    Codec
    → Host
    → CliOptions
    → Text
    → Text
    → Text
    → Result Loaded
    → (Plan → List Exit)
    → M Supervised
unfolding plan_supervision supervise
tunnel_supervisor c h o session_dir ready_file target_name loaded exits = do
  p ← plan_supervision c h o session_dir ready_file target_name loaded
  pure (supervise p.reconnect 1 (exits p))

plan_supervision-load :
    (c : Codec) (h : Host) (o : CliOptions) (dir ready_file : Text) (l : Loaded) (w : World)
    (s : State) (g : Gateway) (cluster : Cluster) (kubectl : Text)
    → is_nil dir ≡ false
    → is_nil ready_file ≡ false
    → selected_cluster l.config o ≡ ok cluster
    → load c dir w ≡ (ok s, w)
    → lookup s.gateway l.config.gateways ≡ some g
    → kubectl_path h o cluster ≡ ok kubectl
    → plan_supervision c h o dir ready_file s.target (ok l) w
      ≡ (ok (plan_of h o s g cluster kubectl), w)
unfolding plan_supervision
plan_supervision-load c h o dir ready_file l w s g cluster kubectl given ready selected loaded at
      kube =
    rw (
      given,
      ready,
      selected,
      ap (λ (x : Result State × World). x.0) loaded,
      equal_refl s.target,
      at,
      kube,
    )

-- A session that `Prepare` has made names its target and its gateway, and has the rest of the
-- port-forward.
plan_of-prepared_of :
    (h : Host) (cli : CliOptions) (o : Options) (r : Resolved) (a : Allocation) (f : SessionFiles)
    (cluster : Cluster) (kubectl : Text)
    → plan_of h cli (prepared_of o r a f).state r.gateway cluster kubectl ≡ record {
      kubectl_path = kubectl;
      env = kubectl_base_env h cluster;
      command = port_forward_service_command (port_forward_options cluster (prepared_of o r a f));
      reconnect = if not o.reconnect then false else not cli.no_reconnect;
    }
unfolding plan_of supervised_options port_forward_options prepared_of
plan_of-prepared_of h cli o r a f cluster kubectl = refl

-- The supervisor reads the configuration that the command has read, from its file.
module _ (c : Codec) (h : Host) (cli : CliOptions) (o : Options) (file : Text) where
  -- The supervisor of a session that `Prepare` has made, with the same configuration and options,
  -- runs exactly the port-forward that the preflight has tried; and it is told to reconnect where
  -- the session and the options say so. The session's texts are valid UTF-8, its directory and a
  -- ready file are given, its file can be read, and a cluster and a kubectl are found.
  pub plan_supervision-prepare :
      (ready_file : Text) (w : World) {p : Prepared} {w' : World} {cluster : Cluster}
      {kubectl : Text}
      → prepare c o w ≡ (ok p, w')
      → has_utf8 p.state ≡ true
      → w.refuses Call.to_read (path o.session_dir) ≡ false
      → is_nil o.session_dir ≡ false
      → is_nil ready_file ≡ false
      → selected_cluster o.config cli ≡ ok cluster
      → kubectl_path h cli cluster ≡ ok kubectl
      → plan_supervision c h cli o.session_dir ready_file p.target_name
          (ok (record { config = o.config; path = file }))
          w'
        ≡ (
          ok (record {
            kubectl_path = kubectl;
            env = kubectl_base_env h cluster;
            command = port_forward_service_command (port_forward_options cluster p);
            reconnect = if not o.reconnect then false else not cli.no_reconnect;
          }),
          w',
        )
  unfolding prepared_of
  plan_supervision-prepare ready_file w {p} {w'} {cluster} {kubectl} prepared utf8 readable dir
        ready selected kube =
      let (s, loaded, _, _) = prepare_ok c o w prepared utf8 readable in
      let r = s.resolved in
      let a = s.allocation in
      let f = session_files (ssh_options o r a) in
      let made : p ≡ prepared_of o r a f = s.result in
      let plan = λ (x : Prepared).
        plan_supervision c h cli o.session_dir ready_file x.target_name
          (ok (record { config = o.config; path = file })) w' in
      let load_made : load c o.session_dir w' ≡ (ok (prepared_of o r a f).state, w') =
        loaded ∙ (λ i. (ok (made i).state, w')) in
      ap plan made
      ∙ plan_supervision-load c h cli o.session_dir ready_file
          (record { config = o.config; path = file }) w' (prepared_of o r a f).state r.gateway
          cluster kubectl dir ready selected load_made
          (resolve-lookup o.config o.target_name o.gateway_name s.was_resolved) kube
      ∙ (λ i. (ok (plan_of-prepared_of h cli o r a f cluster kubectl i), w'))
      ∙ (λ i. (
        ok (record {
          kubectl_path = kubectl;
          env = kubectl_base_env h cluster;
          command = port_forward_service_command (port_forward_options cluster (sym made i));
          reconnect = if not o.reconnect then false else not cli.no_reconnect;
        }),
        w',
      ))
