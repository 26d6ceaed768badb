-- ===== src/Examples/UserFiles.antt =====
-- Runs of internal/sshconfig/userconfig.go.
use dev_connect.Prelude.{none, some, ◌≡◌, refl, arith, drop}
use dev_connect.Text.{Text, codes, index, trim_left, is_newline, equal}
use dev_connect.Result.{ok}
use dev_connect.World.{read_file}
use dev_connect.World.Frame.{put}
use dev_connect.SshConfig.{file_mode, render_config}
use dev_connect.Text.Numbers.{decimal_int}
use dev_connect.SshConfig.UserConfig.{
  managed_options, remove_managed_block, begin_marker, end_marker, cut_block, render_managed_block,
  prepend_managed_block, upsert_managed_block, remove_block_from_file, optional,
}
use dev_connect.SshConfig.UserConfig.Loop.{remove_managed_block_lem}
use dev_connect.SshConfig.UserConfig.RoundTrip.{HasNoHash, remove-prepend-remove}
use dev_connect.SshConfig.UserConfig.Prefix.{block_of, remove_managed_block_prefix}
use dev_connect.SshConfig.UserConfig.Files.{remove-upsert}
use dev_connect.Examples.Machine.{fresh, user_options}

remove_managed_block_lem_example :
    remove_managed_block (codes "# BEGIN dev-connect d") (codes "d")
    ≡ elim (index (codes "# BEGIN dev-connect d") (begin_marker (codes "d"))) [
      | none ↦ trim_left is_newline (codes "# BEGIN dev-connect d")
      | some start ↦
          elim (index (drop start (codes "# BEGIN dev-connect d")) (end_marker (codes "d"))) [
            | none ↦ codes "# BEGIN dev-connect d"
            | some stop ↦
                remove_managed_block
                  (cut_block (codes "# BEGIN dev-connect d") (end_marker (codes "d")) start stop)
                  (codes "d")
          ]
    ]
remove_managed_block_lem_example =
    remove_managed_block_lem (codes "# BEGIN dev-connect d") (codes "d")

abbrev user_options-HasNoHash : HasNoHash user_options
user_options-HasNoHash = record {
  alias = omega arith;
  user = omega arith;
  identity_file = tt;
  local_host = omega arith;
  known_hosts_path = omega arith;
}

remove-prepend-remove_example :
    remove_managed_block
      (prepend_managed_block
        (remove_managed_block (codes "Host x") (codes "dev"))
        (render_managed_block user_options))
      (codes "dev")
    ≡ trim_left is_newline (remove_managed_block (codes "Host x") (codes "dev"))
remove-prepend-remove_example =
    remove-prepend-remove user_options (codes "Host x") user_options-HasNoHash

remove_managed_block_prefix_example :
    remove_managed_block
      (block_of (codes "dev01") (codes "Host dev01\n") (codes "Host x"))
      (codes "dev")
    ≡ codes "01\nHost x"
remove_managed_block_prefix_example =
    remove_managed_block_prefix (codes "dev") b'0' (codes "1") (codes "Host dev01\n")
      (codes "Host x") (omega arith) (omega arith) (omega arith) (omega arith) refl

remove-upsert_example :
    (content : Text) × (optional (codes "/c") (read_file fresh (codes "/c")) ≡ ok content)
    × ((remove_block_from_file
          (codes "/c")
          (codes "dev")
          (upsert_managed_block user_options fresh).1).1
        ≡ put fresh
            (codes "/c")
            (trim_left is_newline (remove_managed_block content (codes "dev")))
            file_mode)
unfolding upsert_managed_block remove_block_from_file equal remove_managed_block index
    prepend_managed_block render_managed_block render_config managed_options decimal_int cut_block
remove-upsert_example = remove-upsert user_options fresh user_options-HasNoHash refl refl
