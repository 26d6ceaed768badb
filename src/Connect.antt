-- ===== src/Connect.antt =====
-- internal/connect/connect.go: `Prepare`, which resolves a target and writes the session's files.
pub mod Resolve
pub mod Artifacts
use dev_connect.Prelude.{ℕ, List, ◌++◌, Bool, Option, none, some, ℤ, [], if◌then◌else◌, is_nil, pos}
use dev_connect.Text.{Text, codes}
use dev_connect.Text.Numbers.{decimal}
use dev_connect.Text.Paths.{join_path}
use dev_connect.Result.{
  Error, Result, ok, err, fail_if, wrap, unknown_target, unknown_gateway, missing_host_key,
  allocate_port_failed, session_dir_required,
}
use dev_connect.Result
use dev_connect.World.Steps.{M, ◌>>=◌, ◌>>◌, lift, pure}
use dev_connect.Map.{lookup, text_at}
use dev_connect.Port.{Allocation}
use dev_connect.Config.{
  Config, Target, Gateway, Context, Cluster, effective_server_alive_interval,
  effective_server_alive_count_max, effective_tcp_keep_alive,
}
use dev_connect.SshConfig.{SessionOptions, SessionFiles}
use dev_connect.SshConfig.Write.{write_session_files}
use dev_connect.Session.{State, Time}
use dev_connect.Session.Store.{Codec, save}

-- `allocation`, `now` and `session_id` are what the three functions of the source's options give.
pub record Options : Type 0 where
  pub config : Config
  pub target_name : Text
  pub context : Text
  pub gateway_name : Text
  pub session_dir : Text
  pub ssh_dir : Text
  pub allocation : Result Allocation
  pub now : Time
  pub session_id : Text
  pub reconnect : Bool

pub record Prepared : Type 0 where
  pub target_name : Text
  pub target : Target
  pub gateway_name : Text
  pub gateway : Gateway
  pub local_host : Text
  pub local_port : ℤ
  pub ssh_files : SessionFiles
  pub session_dir : Text
  pub state : State

-- The identifier that the options give, or 16 random bytes in hexadecimal, printed by `to_hex`, or
-- the time where the system has none.
unfoldable pub session_id : Option Text → (List ℕ → Text) → Option (List ℕ) → Time → Text
unfolding decimal
session_id (some given) to_hex random now = given
session_id none to_hex (some bytes) now = to_hex bytes
session_id none to_hex none now = codes "session-" ++ decimal now

abbrev pub found {ℓ} : {A : Type ℓ} → Error → Option A → Result A
found e none = err e
found e (some a) = ok a

-- What the configuration says of a target.
pub record Resolved : Type 0 where
  pub target : Target
  pub gateway_name : Text
  pub gateway : Gateway
  pub host_key : Text

abbrev pub or_text : Text → Text → Text
or_text s d = if is_nil s then d else s

unfoldable pub resolve : Config → Text → Text → Result Resolved
unfolding lookup text_at
resolve c name gateway_name =
    Result.◌>>=◌ (found (unknown_target name) (lookup name c.targets)) λ target.
      let gateway_used = or_text gateway_name target.gateway in
      Result.◌>>=◌ (found (unknown_gateway gateway_used) (lookup gateway_used c.gateways))
        λ gateway.
          let ref = or_text target.host_key_ref name in
          let host_key = text_at ref c.host_keys in
          Result.◌>>◌ (fail_if (is_nil host_key) (missing_host_key ref)) (
            ok (record {
              target = target;
              gateway_name = gateway_used;
              gateway = gateway;
              host_key = host_key;
            }))

unfoldable pub kubernetes_context : Config → Text → Text
unfolding lookup
kubernetes_context c name = if is_nil name then [] else elim (lookup name c.contexts) [
  | none ↦ []
  | some context ↦ elim (lookup context.cluster c.clusters) [
    | none ↦ []
    | some cluster ↦ cluster.kubernetes_context
  ]
]

unfoldable pub ssh_dir_of : Options → Text
unfolding join_path
ssh_dir_of o = if is_nil o.ssh_dir then join_path o.session_dir (codes "ssh") else o.ssh_dir

-- The options of the SSH files.
unfoldable pub ssh_options : Options → Resolved → Allocation → SessionOptions
unfolding effective_server_alive_interval effective_server_alive_count_max effective_tcp_keep_alive
    ssh_dir_of
ssh_options o r a = record {
  dir = ssh_dir_of o;
  alias = o.target_name;
  user = r.target.user;
  identity_file = r.target.identity_file;
  local_host = a.host;
  local_port = a.port;
  host_key = r.host_key;
  server_alive_interval = effective_server_alive_interval o.config.ssh;
  server_alive_count_max = effective_server_alive_count_max o.config.ssh;
  tcp_keep_alive = effective_tcp_keep_alive o.config.ssh;
}

-- The state of the new session.
unfoldable pub new_state : Options → Resolved → Allocation → SessionFiles → State
unfolding kubernetes_context
new_state o r a files = record {
  session_id = o.session_id;
  target = o.target_name;
  gateway = r.gateway_name;
  namespace = r.gateway.namespace;
  kubernetes_context = kubernetes_context o.config o.context;
  local_port = a.port;
  port_forward_pid = pos 0;
  ssh_config_path = files.config_path;
  known_hosts_path = files.known_hosts_path;
  user_ssh_config_path = [];
  vscode_user_data_dir = [];
  started_at = o.now;
  reconnect = o.reconnect;
  ssh_private_key = [];
  password = [];
  kubernetes_token = [];
}

unfoldable pub prepared_of : Options → Resolved → Allocation → SessionFiles → Prepared
unfolding new_state
prepared_of o r a files = record {
  target_name = o.target_name;
  target = r.target;
  gateway_name = r.gateway_name;
  gateway = r.gateway;
  local_host = a.host;
  local_port = a.port;
  ssh_files = files;
  session_dir = o.session_dir;
  state = new_state o r a files;
}

unfoldable pub prepare : Codec → Options → M Prepared
unfolding resolve ssh_options new_state prepared_of write_session_files save
prepare c o = do
  r ← lift (resolve o.config o.target_name o.gateway_name)
  a ← lift (wrap allocate_port_failed o.allocation)
  lift (fail_if (is_nil (ssh_dir_of o)) session_dir_required)
  files ← write_session_files (ssh_options o r a)
  save c o.session_dir (new_state o r a files)
  pure (prepared_of o r a files)
