-- ===== src/Cli/Connecting.antt =====
-- cmd/dev-connect/main.go: the command `connect`, after the configuration was loaded. What the programs do
-- that it runs, kubectl in the preflight, the supervisor, ssh and VS Code, are functions on the
-- machine.
pub mod Failure
pub mod Second
pub mod Run
use dev_connect.Prelude.{
  ℕ, Bool, true, false, not, Option, none, some, List, [], ◌∷◌, ◌≡◌, ◌⊎◌, inl, inr, refl, sym, ap,
  ◌∙◌, arith, if◌then◌else◌, is_nil, ℤ, is_positive, Bool-cases,
}
use dev_connect.Text.{Text, codes}
use dev_connect.Text.Paths.{join_path}
use dev_connect.Result.{Error, Result, ok, err}
use dev_connect.World.{World, Call, update_self}
use dev_connect.World.Steps.{M, ◌>>=◌, ◌>>◌, act, lift, pure, ignore}
use dev_connect.Session.{State}
use dev_connect.Session.Store.{Codec, save, clear, path}
use dev_connect.SshConfig.{SessionFiles}
use dev_connect.SshConfig.Write.{cleanup}
use dev_connect.SshConfig.UserConfig.{UserConfigOptions, upsert_managed_block}
use dev_connect.Config.{
  Config, Cluster, use_isolated_user_data_dir, effective_server_alive_interval,
  effective_server_alive_count_max, effective_tcp_keep_alive,
}
use dev_connect.Connect.{Options, Prepared, prepare}
use dev_connect.Tunnel.{Started}
use dev_connect.Vscode.UserData.{prepare_user_data_dir}
use dev_connect.Cli.{CliOptions, selected_cluster}
use dev_connect.Cli.Sessions.{
  cleanup_session_artifacts, ensure_no_active_session, ensure_no_active_session_locked,
}

-- `if err := m; err != nil { undo; return err }`
abbrev undo_and_fail : {A : Type 0} → M (Unit {0}) → Result A → M A
undo_and_fail undo (ok a) w = (ok a, w)
undo_and_fail undo (err e) w = (err e, (undo w).1)

abbrev pub or_undo : {A : Type 0} → M A → M (Unit {0}) → M A
or_undo m undo w = undo_and_fail undo (m w).0 (m w).1

-- The programs, and `sshconfig.DefaultUserConfigPath`.
pub record Programs : Type 0 where
  pub preflight : Cluster → Prepared → M (Unit {0})
  pub start_supervisor : Cluster → Prepared → M Started
  pub configure_remote : Config → Text → Text → M (Unit {0})
  pub launch : Config → Text → Text → M (Unit {0})
  pub default_user_config_path : Result Text
  pub marshal : Text → Text → Text

unfoldable pub user_ssh_config_path : Result Text → Text → Result Text
user_ssh_config_path default_path configured_path =
    if not (is_nil configured_path) then ok configured_path else default_path

unfoldable pub user_config_options : Config → Prepared → Text → UserConfigOptions
unfolding effective_server_alive_interval effective_server_alive_count_max effective_tcp_keep_alive
user_config_options config p config_path = record {
  config_path = config_path;
  alias = p.target_name;
  user = p.target.user;
  identity_file = p.target.identity_file;
  local_host = p.local_host;
  local_port = p.local_port;
  known_hosts_path = p.state.known_hosts_path;
  server_alive_interval = effective_server_alive_interval config.ssh;
  server_alive_count_max = effective_server_alive_count_max config.ssh;
  tcp_keep_alive = effective_tcp_keep_alive config.ssh;
}

module _ (c : Codec) (programs : Programs) (cli : CliOptions) (o : Options) where
  -- What is undone after a failure before the tunnel is started, and after one behind it.
  unfoldable pub discard_files : Prepared → M (Unit {0})
  unfolding cleanup clear
  discard_files p = ignore (cleanup p.ssh_files) >> ignore (clear p.session_dir)

  unfoldable pub discard_artifacts : Text → State → M (Unit {0})
  unfolding cleanup_session_artifacts clear
  discard_artifacts dir s = ignore (cleanup_session_artifacts s) >> ignore (clear dir)

  -- The process of the tunnel is noted in the session.
  unfoldable pub record_process : Prepared → Started → M State
  unfolding save discard_files
  record_process p t =
      let s : State = record p.state { port_forward_pid = t.pid } in
      if is_positive t.pid
      then or_undo (save c p.session_dir s) (discard_files p) >> pure s
      else pure p.state

  -- The block in the user's SSH configuration, which is noted in the session.
  unfoldable pub register_user_config : Prepared → State → Text → M State
  unfolding upsert_managed_block user_config_options save discard_artifacts
  register_user_config p s config_path = do
    or_undo (upsert_managed_block (user_config_options o.config p config_path))
        (discard_artifacts p.session_dir s)
    or_undo (save c p.session_dir (record s { user_ssh_config_path = config_path }))
        (discard_artifacts p.session_dir (record s { user_ssh_config_path = config_path }))
    pure (record s { user_ssh_config_path = config_path })

  unfoldable pub manage_user_config : Prepared → State → M State
  unfolding register_user_config user_ssh_config_path
  manage_user_config p s =
      let config_path =
        user_ssh_config_path programs.default_user_config_path o.config.ssh.user_config_path in
      if o.config.ssh.manage_user_config
      then or_undo (lift config_path) (discard_artifacts p.session_dir s)
        >>= register_user_config p s
      else pure s

  unfoldable pub set_up_remote : Prepared → State → M (Unit {0})
  unfolding discard_artifacts
  set_up_remote p s =
      if o.config.vscode.remote_setup.enabled
      then or_undo (programs.configure_remote o.config o.target_name s.ssh_config_path)
          (discard_artifacts p.session_dir s)
      else pure tt

  -- The isolated directory, which is noted in the session.
  unfoldable pub register_user_data : Prepared → State → Text → M State
  unfolding prepare_user_data_dir save discard_artifacts
  register_user_data p s dir = do
    or_undo (prepare_user_data_dir programs.marshal dir s.ssh_config_path)
        (discard_artifacts p.session_dir s)
    or_undo (save c p.session_dir (record s { vscode_user_data_dir = dir }))
        (discard_artifacts p.session_dir (record s { vscode_user_data_dir = dir }))
    pure (record s { vscode_user_data_dir = dir })

  unfoldable pub isolate_user_data : Prepared → State → M State
  unfolding register_user_data join_path use_isolated_user_data_dir
  isolate_user_data p s =
      if use_isolated_user_data_dir o.config.vscode
      then register_user_data p s (join_path p.session_dir (codes "vscode-user-data"))
      else pure s

  unfoldable pub launch_code : Prepared → State → M State
  unfolding set_up_remote isolate_user_data discard_artifacts
  launch_code p s = do
    set_up_remote p s
    s' ← isolate_user_data p s
    or_undo (programs.launch o.config o.target_name s'.vscode_user_data_dir)
        (discard_artifacts p.session_dir s')
    pure s'

  -- The command behind `Prepare`; it gives the state that it reports.
  unfoldable pub finish_connect : Cluster → Prepared → M State
  unfolding record_process manage_user_config launch_code discard_files
  finish_connect cluster p = do
    or_undo (programs.preflight cluster p) (discard_files p)
    t ← or_undo (programs.start_supervisor cluster p) (discard_files p)
    s ← record_process p t
    s' ← manage_user_config p s
    if cli.no_code then pure s' else launch_code p s'

  unfoldable pub connect : M State
  unfolding ensure_no_active_session selected_cluster prepare finish_connect
  connect = do
    ensure_no_active_session c o.session_dir
    cluster ← lift (selected_cluster o.config cli)
    p ← prepare c o
    finish_connect cluster p
