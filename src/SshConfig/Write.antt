-- ===== src/SshConfig/Write.antt =====
-- internal/sshconfig/sshconfig.go: writing the session's files, and removing them.
pub mod Effects
use dev_connect.Prelude.{ℕ, List, [], ◌∷◌, ◌++◌, if◌then◌else◌, is_nil}
use dev_connect.Text.{Text, codes, trim_space}
use dev_connect.Text.Numbers.{decimal_int}
use dev_connect.Text.Paths.{join_path}
use dev_connect.Result.{Error, write_failed, chmod_failed, remove_failed, mkdir_failed}
use dev_connect.World.{World, write_file, chmod, mkdir_all, remove}
use dev_connect.World.Steps.{M, ◌>>=◌, ◌>>◌, act, lift, pure}
use dev_connect.SshConfig.{SessionOptions, SessionFiles, validate, render_config, file_mode}

unfoldable pub write_restricted : Text → Text → M (Unit {0})
unfolding write_file chmod
write_restricted path content = do
  act (λ w. write_file w path content file_mode) (write_failed path)
  act (λ w. chmod w path file_mode) (chmod_failed path)

-- The one line of known_hosts.
unfoldable pub known_hosts_line : SessionOptions → Text
unfolding trim_space decimal_int
known_hosts_line o =
    b'['
    ∷ (o.local_host
        ++ (codes "]:"
            ++ (decimal_int o.local_port ++ b' ' ∷ (trim_space o.host_key ++ b'\n' ∷ []))))

unfoldable pub session_files : SessionOptions → SessionFiles
unfolding join_path
session_files o = record {
  config_path = join_path o.dir (codes "ssh_config");
  known_hosts_path = join_path o.dir (codes "known_hosts");
}

unfoldable pub write_session_files : SessionOptions → M SessionFiles
unfolding validate mkdir_all write_restricted session_files known_hosts_line render_config
write_session_files o = do
  lift (validate o)
  act (λ w. mkdir_all w o.dir) (mkdir_failed o.dir)
  write_restricted (session_files o).known_hosts_path (known_hosts_line o)
  write_restricted (session_files o).config_path
      (render_config o (session_files o).known_hosts_path)
  pure (session_files o)

-- One round of the loop in `Cleanup`.
unfoldable pub remove_path : Text → M (Unit {0})
unfolding remove
remove_path path = if is_nil path then pure tt else act (λ w. remove w path) (remove_failed path)

unfoldable pub cleanup : SessionFiles → M (Unit {0})
unfolding remove_path
cleanup files = do remove_path files.config_path; remove_path files.known_hosts_path
