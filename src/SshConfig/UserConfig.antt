-- ===== src/SshConfig/UserConfig.antt =====
-- internal/sshconfig/userconfig.go: the managed block in the user's SSH configuration.
pub mod Loop
pub mod Blocks
pub mod Settle
pub mod RoundTrip
pub mod Prefix
pub mod Files
use dev_connect.Prelude.{
  ℕ, zero, suc, ◌+◌, Bool, true, false, not, ◌||◌, Option, none, some, List, [], ◌∷◌, ◌++◌,
  if◌then◌else◌, is_nil, ℤ, is_positive, take, drop, length, ◌==◌,
}
use dev_connect.Text.{Text, codes, index, equal, trim_left, trim_right, is_newline}
use dev_connect.Text.Paths.{join_path, dir_of}
use dev_connect.Result.{
  Error, Result, ok, err, user_config_path_required, ssh_alias_required, alias_has_newline,
  local_host_required, invalid_local_port, known_hosts_path_required, home_required, mkdir_failed,
  write_failed, chmod_failed, read_failed, fail_if,
}
use dev_connect.Result
use dev_connect.World.{
  World, ReadResult, contents, missing, failed, read_file, write_file, chmod, mkdir_all,
}
use dev_connect.World.Steps.{M, ◌>>=◌, ◌>>◌, act, lift, pure}
use dev_connect.SshConfig.{SessionOptions, render_config, file_mode}

pub record UserConfigOptions : Type 0 where
  pub config_path : Text
  pub alias : Text
  pub user : Text
  pub identity_file : Text
  pub local_host : Text
  pub local_port : ℤ
  pub known_hosts_path : Text
  pub server_alive_interval : ℤ
  pub server_alive_count_max : ℤ
  pub tcp_keep_alive : Bool

unfoldable pub begin_marker : Text → Text
begin_marker alias = codes "# BEGIN dev-connect " ++ alias

unfoldable pub end_marker : Text → Text
end_marker alias = codes "# END dev-connect " ++ alias

-- `strings.ContainsAny(s, "\r\n")`
unfoldable pub has_newline : Text → Bool
has_newline [] = false
has_newline (c ∷ s) = is_newline c || has_newline s

unfoldable pub validate_user_config_options : UserConfigOptions → Result (Unit {0})
unfolding has_newline
validate_user_config_options o =
    Result.◌>>◌ (fail_if (is_nil o.config_path) user_config_path_required) (
      Result.◌>>◌ (fail_if (is_nil o.alias) ssh_alias_required) (
        Result.◌>>◌ (fail_if (has_newline o.alias) alias_has_newline) (
          Result.◌>>◌ (fail_if (is_nil o.local_host) local_host_required) (
            Result.◌>>◌ (fail_if (not (is_positive o.local_port)) (invalid_local_port o.local_port))
              (fail_if (is_nil o.known_hosts_path) known_hosts_path_required)))))

-- The session options that the block is rendered from.
unfoldable pub managed_options : UserConfigOptions → SessionOptions
managed_options o = record {
  dir = [];
  alias = o.alias;
  user = o.user;
  identity_file = o.identity_file;
  local_host = o.local_host;
  local_port = o.local_port;
  host_key = [];
  server_alive_interval = o.server_alive_interval;
  server_alive_count_max = o.server_alive_count_max;
  tcp_keep_alive = o.tcp_keep_alive;
}

unfoldable pub render_managed_block : UserConfigOptions → Text
render_managed_block o =
    let config = render_config (managed_options o) o.known_hosts_path in
    begin_marker o.alias ++ b'\n' ∷ (config ++ (end_marker o.alias ++ b'\n' ∷ []))

unfoldable pub prepend_managed_block : Text → Text → Text
unfolding trim_left
prepend_managed_block content block =
    let rest = trim_left is_newline content in if is_nil rest then block else block ++ b'\n' ∷ rest

-- The text without the block that starts at `start`, `stop` bytes before its end marker, and
-- without the newlines behind it.
unfoldable pub cut_block : Text → Text → ℕ → ℕ → Text
unfolding trim_left
cut_block content end start stop =
    take start content ++ trim_left is_newline (drop (start + stop + length end) content)

-- The loop of `removeManagedBlock`, a round for each unit of fuel.
unfoldable pub remove_blocks : ℕ → Text → Text → Text → Text
remove_blocks zero content begin end = content
remove_blocks (suc fuel) content begin end = elim (index content begin) [
  | none ↦ trim_left is_newline content
  | some start ↦ elim (index (drop start content) end) [
    | none ↦ content
    | some stop ↦ remove_blocks fuel (cut_block content end start stop) begin end
  ]
]

unfoldable pub remove_managed_block : Text → Text → Text
unfolding remove_blocks begin_marker end_marker
remove_managed_block content alias =
    remove_blocks (suc (length content)) content (begin_marker alias) (end_marker alias)

abbrev pub optional : Text → ReadResult → Result Text
optional path (contents t) = ok t
optional path missing = ok []
optional path failed = err (read_failed path)

unfoldable pub read_optional : Text → M Text
unfolding read_file
read_optional path w = (optional path (read_file w path), w)

unfoldable pub write_user_config : Text → Text → M (Unit {0})
unfolding mkdir_all write_file chmod
write_user_config path content = do
  act (λ w. mkdir_all w (dir_of path)) (mkdir_failed path)
  act (λ w. write_file w path content file_mode) (write_failed path)
  act (λ w. chmod w path file_mode) (chmod_failed path)

unfoldable pub upsert_managed_block : UserConfigOptions → M (Unit {0})
unfolding validate_user_config_options read_optional write_user_config
upsert_managed_block o = do
  lift (validate_user_config_options o)
  content ← read_optional o.config_path
  let updated =
      prepend_managed_block (remove_managed_block content o.alias) (render_managed_block o)
  write_user_config o.config_path updated

-- `RemoveManagedBlock`
unfoldable pub remove_block_from_file : Text → Text → M (Unit {0})
unfolding read_optional write_user_config
remove_block_from_file config_path alias =
    if is_nil config_path || is_nil alias then pure tt else (do
      content ← read_optional config_path
      let updated = remove_managed_block content alias
      if equal updated content then pure tt else write_user_config config_path updated)

unfoldable pub default_user_config_path_for : Text → Text → Text → Result Text
default_user_config_path_for goos home user_profile =
    let base =
      if equal goos (codes "windows")
      then (if is_nil user_profile then home else user_profile)
      else home in
    if is_nil base
    then err home_required
    else if not (equal goos (codes "windows"))
    then ok (trim_right (λ c. c == 47) base ++ codes "/.ssh/config")
    else ok (join_path (join_path base (codes ".ssh")) (codes "config"))
