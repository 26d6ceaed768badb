-- ===== src/SshConfig.antt =====
-- internal/sshconfig/sshconfig.go: the temporary SSH files of one session.
pub mod Render
pub mod Quoting
pub mod Write
pub mod UserConfig
use dev_connect.Prelude.{
  ℕ, ◌-◌, Bool, true, false, not, List, [], ◌∷◌, ◌++◌, if◌then◌else◌, is_nil, ℤ, is_positive, take,
  drop, length,
}
use dev_connect.Text.{Text, codes, trim_space, replace_byte, join}
use dev_connect.Text.Numbers.{decimal_int}
use dev_connect.Result.{
  Error, Result, ok, ssh_dir_required, ssh_alias_required, local_host_required, invalid_local_port,
  host_key_required, fail_if, ◌>>◌,
}

-- 0o600
abbrev pub file_mode : ℕ
file_mode = 0o600

pub record SessionOptions : Type 0 where
  pub dir : Text
  pub alias : Text
  pub user : Text
  pub identity_file : Text
  pub local_host : Text
  pub local_port : ℤ
  pub host_key : Text
  pub server_alive_interval : ℤ
  pub server_alive_count_max : ℤ
  pub tcp_keep_alive : Bool

pub record SessionFiles : Type 0 where
  pub config_path : Text
  pub known_hosts_path : Text

unfoldable pub validate : SessionOptions → Result (Unit {0})
unfolding trim_space
validate o = do
  fail_if (is_nil o.dir) ssh_dir_required
  fail_if (is_nil o.alias) ssh_alias_required
  fail_if (is_nil o.local_host) local_host_required
  fail_if (not (is_positive o.local_port)) (invalid_local_port o.local_port)
  fail_if (is_nil (trim_space o.host_key)) host_key_required

unfoldable pub quote_config_value : Text → Text
unfolding replace_byte
quote_config_value value =
    let escaped = replace_byte b'\\' (b'\\' ∷ b'\\' ∷ []) value in
    b'"' ∷ (replace_byte b'"' (b'\\' ∷ b'"' ∷ []) escaped ++ b'"' ∷ [])

-- `append(lines[:at], append([]string{line}, lines[at:]...)...)`
abbrev insert_at : ℕ → Text → List Text → List Text
insert_at at line lines = take at lines ++ line ∷ drop at lines

base_lines : SessionOptions → Text → List Text
base_lines o known_hosts_path =
    (codes "Host " ++ o.alias)
    ∷ (codes "  HostName " ++ o.local_host)
    ∷ (codes "  Port " ++ decimal_int o.local_port)
    ∷ (codes "  UserKnownHostsFile " ++ quote_config_value known_hosts_path)
    ∷ codes "  StrictHostKeyChecking yes"
    ∷ codes "  IdentitiesOnly yes"
    ∷ []

with_user : SessionOptions → List Text → List Text
with_user o lines = if is_nil o.user then lines else insert_at 3 (codes "  User " ++ o.user) lines

with_identity : SessionOptions → List Text → List Text
with_identity o lines =
    if is_nil o.identity_file
    then lines
    else insert_at (length lines - 1)
        (codes "  IdentityFile " ++ quote_config_value o.identity_file) lines

with_alive : SessionOptions → List Text → List Text
with_alive o lines =
    let timed =
      if is_positive o.server_alive_interval
      then lines ++ (codes "  ServerAliveInterval " ++ decimal_int o.server_alive_interval) ∷ []
      else lines in
    let counted =
      if is_positive o.server_alive_count_max
      then timed ++ (codes "  ServerAliveCountMax " ++ decimal_int o.server_alive_count_max) ∷ []
      else timed in
    counted
    ++ (if o.tcp_keep_alive then codes "  TCPKeepAlive yes" else codes "  TCPKeepAlive no") ∷ []

unfoldable pub render_config : SessionOptions → Text → Text
unfolding join base_lines with_user with_identity with_alive quote_config_value
render_config o known_hosts_path =
    join (with_alive o (with_identity o (with_user o (base_lines o known_hosts_path)))) (b'\n' ∷ [])
    ++ b'\n' ∷ []
