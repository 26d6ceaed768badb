-- ===== src/Vscode/UserData.antt =====
-- internal/vscode/userdata.go: the isolated user data directory. `marshal` stands for
-- `json.MarshalIndent` of the settings, a map from one name to one text.
use dev_connect.Prelude.{
  ℕ, ◌||◌, none, some, [], ◌∷◌, ◌++◌, ◌≡◌, sym, ap, ◌∙◌, arith, if◌then◌else◌, is_nil,
}
use dev_connect.Text.{Text, codes, equal, has_prefix}
use dev_connect.Text.Paths.{join_path}
use dev_connect.Result.{
  Result, ok, fail_if, user_data_dir_required, ssh_config_path_required, mkdir_failed, write_failed,
  chmod_failed, remove_failed,
}
use dev_connect.World.{World, mkdir_all, write_file, chmod, remove_all}
use dev_connect.World.Steps.{M, ◌>>◌, act, lift, pure}
use dev_connect.World.Frame.{
  put, >>=-eq-ok, act-eq-ok, lift-eq-ok, mkdir_all-eq-ok, write-chmod-eq-ok,
}

abbrev pub settings_file_mode : ℕ
settings_file_mode = 0o600

unfoldable pub user_dir : Text → Text
unfolding join_path
user_dir dir = join_path dir (codes "User")

unfoldable pub settings_path : Text → Text
unfolding user_dir
settings_path dir = join_path (user_dir dir) (codes "settings.json")

unfoldable pub prepare_user_data_dir : (Text → Text → Text) → Text → Text → M (Unit {0})
unfolding settings_path mkdir_all write_file chmod
prepare_user_data_dir marshal dir ssh_config_path = do
  lift (fail_if (is_nil dir) user_data_dir_required)
  lift (fail_if (is_nil ssh_config_path) ssh_config_path_required)
  act (λ w. mkdir_all w (user_dir dir)) (mkdir_failed (user_dir dir))
  act
      (λ w.
        write_file w (settings_path dir)
          (marshal (codes "remote.SSH.configFile") ssh_config_path ++ b'\n' ∷ [])
          settings_file_mode)
      (write_failed (settings_path dir))
  act (λ w. chmod w (settings_path dir) settings_file_mode) (chmod_failed (settings_path dir))

unfoldable pub cleanup_user_data_dir : Text → M (Unit {0})
unfolding remove_all
cleanup_user_data_dir dir =
    if is_nil dir then pure tt else act (λ w. remove_all w dir) (remove_failed dir)

-- A directory that was prepared holds the settings, which name the SSH configuration, with mode
-- 0600; nothing else was written.
pub prepare_user_data_dir_ok :
    (marshal : Text → Text → Text) (dir p : Text) (w : World) {t : Unit {0}} {w' : World}
    → prepare_user_data_dir marshal dir p w ≡ (ok t, w')
    → w'
      ≡ put w
          (settings_path dir)
          (marshal (codes "remote.SSH.configFile") p ++ b'\n' ∷ [])
          settings_file_mode
unfolding prepare_user_data_dir
prepare_user_data_dir_ok marshal dir p w h =
    let content = marshal (codes "remote.SSH.configFile") p ++ b'\n' ∷ [] in
    let (_, w0, named, h1) = >>=-eq-ok (lift (fail_if (is_nil dir) user_data_dir_required)) _ w h in
    let (_, w1, given, h2) =
      >>=-eq-ok (lift (fail_if (is_nil p) ssh_config_path_required)) _ w0 h1 in
    let (_, w2, made, h3) =
      >>=-eq-ok (act (λ x. mkdir_all x (user_dir dir)) (mkdir_failed (user_dir dir))) _ w1 h2 in
    let (_, e0) = lift-eq-ok (fail_if (is_nil dir) user_data_dir_required) w named in
    let (_, e1) = lift-eq-ok (fail_if (is_nil p) ssh_config_path_required) w0 given in
    write-chmod-eq-ok (settings_path dir) content settings_file_mode
      (write_failed (settings_path dir)) (chmod_failed (settings_path dir)) w2 h3
    ∙ ap (λ (x : World). put x (settings_path dir) content settings_file_mode)
        (mkdir_all-eq-ok (user_dir dir) (mkdir_failed (user_dir dir)) w1 made ∙ e1 ∙ e0)

remove_all-eq-some :
    (w : World) (dir q : Text) {u : World}
    → remove_all w dir ≡ some u
    → u.file q ≡ (if equal q dir || has_prefix q (dir ++ b'/' ∷ []) then none else w.file q)
unfolding remove_all
remove_all-eq-some w dir q h = ground arith

-- A successful removal leaves no file in the directory, and all other files as they were. Without
-- a directory it does nothing.
pub cleanup_user_data_dir_ok :
    (dir q : Text) (w : World) {t : Unit {0}} {w' : World}
    → cleanup_user_data_dir dir w ≡ (ok t, w')
    → w'.file q ≡ (
        if is_nil dir
        then w.file q
        else if equal q dir || has_prefix q (dir ++ b'/' ∷ [])
        then none
        else w.file q)
unfolding cleanup_user_data_dir
cleanup_user_data_dir_ok [] q w h = ap (λ (r : Result (Unit {0}) × World). r.1.file q) (sym h)
cleanup_user_data_dir_ok (c ∷ dir) q w h =
    remove_all-eq-some w (c ∷ dir) q
      (act-eq-ok (λ x. remove_all x (c ∷ dir)) (remove_failed (c ∷ dir)) w h)
