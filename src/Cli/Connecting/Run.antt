-- ===== src/Cli/Connecting/Run.antt =====
-- cmd/dev-connect/main.go: the command `connect` with the programs that it really runs, and what it
-- has made sure of when it succeeds.
use dev_connect.Prelude.{Option, List, ◌≡◌, sym, ap, ◌∙◌, inl, inr}
use dev_connect.Text.{Text}
use dev_connect.Result.{Result, ok, err, Result-cases}
use dev_connect.World.{World}
use dev_connect.World.Steps.{M, lift}
use dev_connect.World.Frame.{>>=-eq-ok, lift-eq-ok}
use dev_connect.Config.{Cluster}
use dev_connect.Session.{State}
use dev_connect.Session.Store.{Codec}
use dev_connect.Connect.{Options, Prepared, prepare}
use dev_connect.Kubectl.Process.{Exec, Completed}
use dev_connect.Tunnel.{Started}
use dev_connect.Vscode.Setup.{RemoteCommand, Settings}
use dev_connect.Cli.{CliOptions, selected_cluster}
use dev_connect.Cli.Sessions.{ensure_no_active_session}
use dev_connect.Cli.Host.{Host, run_preflight, launch_vscode, configure_remote_vscode}
use dev_connect.Cli.Host.Approval.{Passes, run_preflight-Passes}
use dev_connect.Cli.Supervisor.Start.{Child, start_tunnel_supervisor}
use dev_connect.Cli.Connecting.{Programs, connect, finish_connect, or_undo, discard_files}

-- What runs processes: kubectl and VS Code, the program itself, and ssh with a standard input; and
-- what prints the two settings files.
pub record System : Type 0 where
  pub exec : Exec World
  pub spawn : Text → List Text → World → Option Child
  pub run_script : RemoteCommand → World → Completed × World
  pub marshal_settings : Settings → Text
  pub marshal_user_settings : Text → Text → Text
  pub default_user_config_path : Result Text

unfoldable pub programs_of : System → Host → CliOptions → Text → Programs
unfolding run_preflight start_tunnel_supervisor configure_remote_vscode launch_vscode
programs_of system h cli config_path = record {
  preflight = run_preflight system.exec h cli;
  start_supervisor = start_tunnel_supervisor system.exec h cli system.spawn config_path;
  configure_remote =
      configure_remote_vscode system.exec h cli system.run_script system.marshal_settings;
  launch = launch_vscode system.exec h cli;
  default_user_config_path = system.default_user_config_path;
  marshal = system.marshal_user_settings;
}

or_undo-eq-ok :
    {A : Type 0} (m : M A) (undo : M (Unit {0})) (w : World) {a : A} {u : World}
    → or_undo m undo w ≡ (ok a, u)
    → m w ≡ (ok a, u)
or_undo-eq-ok {A} m undo w {a = b} {u} h = elim (Result-cases (m w).0) [
  | inl (a, e) ↦
      let same : ◌≡◌ {A = Result A × World} (ok a, (m w).1) (ok b, u) = rw (e) at h in
      (λ i. (e i, (m w).1)) ∙ same
  | inr (x, e) ↦
      let no_ok : ◌≡◌ {A = Result A × World} (err x, (undo (m w).1).1) (ok b, u) = rw (e) at h in cc
]

module _ (c : Codec) (system : System) (h : Host) (cli : CliOptions) (config_path : Text)
    (o : Options) where
  -- The way of a `connect` that succeeds.
  pub record Connected (w : World) : Type 0 where
    pub cluster : Cluster
    pub prepared : Prepared
    pub started : Started
    pub w0 : World
    pub w1 : World
    pub w2 : World
    pub w3 : World
    pub free : ensure_no_active_session c o.session_dir w ≡ (ok tt, w0)
    pub selected : selected_cluster o.config cli ≡ ok cluster
    pub was_prepared : prepare c o w0 ≡ (ok prepared, w1)
    pub approved : Passes system.exec h cli cluster prepared w1 w2
    pub forwarded :
        start_tunnel_supervisor system.exec h cli system.spawn config_path cluster prepared w2
        ≡ (ok started, w3)

  -- A `connect` that succeeds has found no session that is in use, has resolved the target and
  -- written its files, has been told by a kubectl that it could execute that the cluster is there,
  -- that ports may be forwarded and that the session's port is, and has started the tunnel.
  pub connect-Connected :
      (w : World) {s : State} {w' : World}
      → connect c (programs_of system h cli config_path) cli o w ≡ (ok s, w')
      → Connected w
  unfolding connect finish_connect programs_of
  connect-Connected w e =
      let programs = programs_of system h cli config_path in
      let (_, w0, free, e1) = >>=-eq-ok (ensure_no_active_session c o.session_dir) _ w e in
      let (cluster, v, chosen, e2) = >>=-eq-ok (lift (selected_cluster o.config cli)) _ w0 e1 in
      let (selected, same) = lift-eq-ok (selected_cluster o.config cli) w0 chosen in
      let (p, w1, was_prepared, e3) =
        >>=-eq-ok (prepare c o) (finish_connect c programs cli o cluster) v e2 in
      let (_, w2, passed, e4) =
        >>=-eq-ok
          (or_undo (run_preflight system.exec h cli cluster p) (discard_files c programs cli o p)) _
          w1 e3 in
      let (t, w3, was_started, _) =
        >>=-eq-ok
          (or_undo (start_tunnel_supervisor system.exec h cli system.spawn config_path cluster p)
            (discard_files c programs cli o p))
          _ w2 e4 in
      record {
        cluster = cluster;
        prepared = p;
        started = t;
        w0 = w0;
        w1 = w1;
        w2 = w2;
        w3 = w3;
        free = free;
        selected = selected;
        was_prepared = ap (prepare c o) (sym same) ∙ was_prepared;
        approved = run_preflight-Passes system.exec h cli cluster p w1 (
            or_undo-eq-ok (run_preflight system.exec h cli cluster p)
              (discard_files c programs cli o p) w1 passed);
        forwarded =
            or_undo-eq-ok
              (start_tunnel_supervisor system.exec h cli system.spawn config_path cluster p)
              (discard_files c programs cli o p) w2 was_started;
      }
