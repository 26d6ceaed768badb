-- ===== src/Session.antt =====
-- internal/session: the metadata of the one managed session, its store, its lock and its process.
pub mod Store
pub mod Persistence
pub mod Lock
pub mod Process
pub mod Windows
use dev_connect.Prelude.{ℕ, Bool, not, is_nil, ℤ}
use dev_connect.Text.{Text}
use dev_connect.Result.{
  Result, session_has_private_key, session_has_password, session_has_token, fail_if, ◌>>◌,
}

-- A time in nanoseconds, zero for Go's zero time.
abbrev pub Time : Type 0
Time = ℕ

pub record State : Type 0 where
  pub session_id : Text
  pub target : Text
  pub gateway : Text
  pub namespace : Text
  pub kubernetes_context : Text
  pub local_port : ℤ
  pub port_forward_pid : ℤ
  pub ssh_config_path : Text
  pub known_hosts_path : Text
  pub user_ssh_config_path : Text
  pub vscode_user_data_dir : Text
  pub started_at : Time
  pub reconnect : Bool
  pub ssh_private_key : Text
  pub password : Text
  pub kubernetes_token : Text

unfoldable pub validate : State → Result (Unit {0})
validate s = do
  fail_if (not (is_nil s.ssh_private_key)) session_has_private_key
  fail_if (not (is_nil s.password)) session_has_password
  fail_if (not (is_nil s.kubernetes_token)) session_has_token
