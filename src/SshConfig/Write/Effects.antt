-- ===== src/SshConfig/Write/Effects.antt =====
-- internal/sshconfig/sshconfig.go: what `WriteSessionFiles` and `Cleanup` do to the machine.
use dev_connect.Prelude.{
  Bool, not, ◌&&◌, ◌||◌, none, some, ◌≡◌, ◌≢◌, refl, sym, ap, ◌∙◌, arith, [], ◌∷◌, if◌then◌else◌,
  is_nil,
}
use dev_connect.Text.{Text, codes, equal}
use dev_connect.Text.Paths.Names.{IsName, join_path_ne}
use dev_connect.Result.{Error, Result, ok, err, write_failed, chmod_failed, mkdir_failed}
use dev_connect.World.{World, mkdir_all, update, update_self, remove}
use dev_connect.World.Steps.{act, lift}
use dev_connect.World.Frame.{
  put, update_other, write-chmod-eq-ok, >>=-eq-ok, lift-eq-ok, mkdir_all-eq-ok, pure-eq-ok,
}
use dev_connect.SshConfig.{SessionOptions, SessionFiles, validate, render_config, file_mode}
use dev_connect.SshConfig.Write.{
  write_restricted, known_hosts_line, session_files, write_session_files, remove_path, cleanup,
}

-- `writeRestricted` leaves the bytes behind with mode 0600, whatever mode a file there had.
pub write_restricted_ok :
    (p content : Text) (w : World) {t : Unit {0}} {w' : World}
    → write_restricted p content w ≡ (ok t, w')
    → w' ≡ put w p content file_mode
unfolding write_restricted
write_restricted_ok p content w h =
    write-chmod-eq-ok p content file_mode (write_failed p) (chmod_failed p) w h

pub ssh_config-IsName : IsName (codes "ssh_config")
unfolding equal
ssh_config-IsName = record {
  no_slash = omega arith;
  not_empty = refl;
  not_dot = refl;
  not_dots = refl;
}

pub known_hosts-IsName : IsName (codes "known_hosts")
unfolding equal
known_hosts-IsName = record {
  no_slash = omega arith;
  not_empty = refl;
  not_dot = refl;
  not_dots = refl;
}

-- The two files of a session are never one file.
pub config_path-ne-known_hosts_path :
    (o : SessionOptions) → (session_files o).config_path ≢ (session_files o).known_hosts_path
unfolding session_files
config_path-ne-known_hosts_path o =
    join_path_ne o.dir o.dir (codes "ssh_config") (codes "known_hosts") ssh_config-IsName
      known_hosts-IsName (omega arith)

-- The machine with the two files of a session.
abbrev pub prepared : SessionOptions → World → World
prepared o w =
    put (put w (session_files o).known_hosts_path (known_hosts_line o) file_mode)
      (session_files o).config_path (render_config o (session_files o).known_hosts_path) file_mode

-- A successful `WriteSessionFiles` was given valid options and returns the two paths. It has put
-- the pinned host key and the rendered configuration there, readable by their owner only, and
-- changed nothing else.
pub write_session_files_ok :
    (o : SessionOptions) (w : World) {files : SessionFiles} {w' : World}
    → write_session_files o w ≡ (ok files, w')
    → (validate o ≡ ok tt) × (files ≡ session_files o) × (w' ≡ prepared o w)
unfolding write_session_files
write_session_files_ok o w h =
    let files_of = session_files o in
    let (_, w0, valid, h1) = >>=-eq-ok (lift (validate o)) _ w h in
    let (_, u, made, h2) = >>=-eq-ok (act (λ x. mkdir_all x o.dir) (mkdir_failed o.dir)) _ w0 h1 in
    let hosts_step = write_restricted files_of.known_hosts_path (known_hosts_line o) in
    let (_, v, hosts, h3) = >>=-eq-ok hosts_step _ u h2 in
    let config = render_config o files_of.known_hosts_path in
    let (_, z, done, h4) = >>=-eq-ok (write_restricted files_of.config_path config) _ v h3 in
    let (is_valid, same0) = lift-eq-ok (validate o) w valid in
    let same1 = mkdir_all-eq-ok o.dir (mkdir_failed o.dir) w0 made in
    let first = write_restricted_ok files_of.known_hosts_path (known_hosts_line o) u hosts in
    let second = write_restricted_ok files_of.config_path config v done in
    let (same_files, same_world) = pure-eq-ok files_of z h4 in
    (
      is_valid,
      same_files,
      same_world
          ∙ second
          ∙ ap (λ (x : World). put x files_of.config_path config file_mode)
              (first
                ∙ ap (λ (x : World). put x files_of.known_hosts_path (known_hosts_line o) file_mode)
                    (same1 ∙ same0)),
    )

-- In the prepared machine both files are found, the host key also behind the configuration that is
-- written after it.
pub prepared_files :
    (o : SessionOptions) (w : World)
    → ((prepared o w).file (session_files o).known_hosts_path
        ≡ some (record { content = known_hosts_line o; mode = file_mode }))
      × ((prepared o w).file (session_files o).config_path
          ≡ some (record {
            content = render_config o (session_files o).known_hosts_path;
            mode = file_mode;
          }))
prepared_files o w = (
  update_other _ (session_files o).config_path (session_files o).known_hosts_path _
        (config_path-ne-known_hosts_path o)
      ∙ update_self w.file (session_files o).known_hosts_path _,
  update_self _ (session_files o).config_path _,
)

-- With options that `validate` refuses nothing is written.
pub write_session_files_invalid :
    (o : SessionOptions) (w : World) {e : Error}
    → validate o ≡ err e
    → write_session_files o w ≡ (err e, w)
unfolding write_session_files
write_session_files_invalid o w h = rw h

-- The paths that `Cleanup` removes.
unfoldable pub is_named : SessionFiles → Text → Bool
is_named f q =
    not (is_nil f.config_path) && equal f.config_path q
    || not (is_nil f.known_hosts_path) && equal f.known_hosts_path q

remove_path_ok :
    (p : Text) (w : World) {t : Unit {0}} {w' : World}
    → remove_path p w ≡ (ok t, w')
    → (q : Text) → w'.file q ≡ (if not (is_nil p) && equal p q then none else w.file q)
unfolding remove_path remove update
remove_path_ok [] w h q = ap (λ (x : Result (Unit {0}) × World). x.1.file q) (sym h)
remove_path_ok (c ∷ p) w h q = ground arith

-- After a successful `Cleanup` the files that it was given are gone, an empty path standing for
-- none, and every other file is as it was.
pub cleanup_ok :
    (f : SessionFiles) (q : Text) (w : World) {t : Unit {0}} {w' : World}
    → cleanup f w ≡ (ok t, w')
    → w'.file q ≡ (if is_named f q then none else w.file q)
unfolding cleanup is_named
cleanup_ok f q w {t} {w'} h =
    let (_, u, first, second) = >>=-eq-ok (remove_path f.config_path) _ w h in
    let e1 = remove_path_ok f.config_path w first q in
    let e2 = remove_path_ok f.known_hosts_path u second q in ground arith
