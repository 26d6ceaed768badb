-- ===== src/Cli/Sessions/RoundTrip.antt =====
-- cmd/dev-connect/main.go: `disconnect` undoes what `Prepare` has done.
use dev_connect.Prelude.{
  ℕ, not, ◌&&◌, is_nil, Bool, true, false, Option, none, some, ◌≡◌, sym, ap, ◌∙◌, arith, [],
  if◌then◌else◌, ◌||◌, Bool-cases, inl, inr,
}
use dev_connect.Text.{Text, codes, equal}
use dev_connect.Text.Paths.Names.{join_path-given}
use dev_connect.Result.{Result, ok}
use dev_connect.World.{World, File, Call, update, remove}
use dev_connect.World.Steps.{lift, ◌>>=◌, ◌>>◌}
use dev_connect.World.Frame.{put, >>=-eq-ok, pure-eq-ok, act-eq-ok, remove-eq-some}
use dev_connect.Port.{Allocation}
use dev_connect.Session.{State}
use dev_connect.Session.Store.{Codec, load, clear, path, has_utf8}
use dev_connect.Session.Persistence.{save_ok}
use dev_connect.Session.Process.{terminate_process}
use dev_connect.SshConfig.{SessionFiles, SessionOptions}
use dev_connect.SshConfig.Write.{cleanup, session_files}
use dev_connect.SshConfig.Write.Effects.{
  prepared, cleanup_ok, is_named, ssh_config-IsName, known_hosts-IsName,
}
use dev_connect.SshConfig.UserConfig.{remove_block_from_file}
use dev_connect.Vscode.UserData.{cleanup_user_data_dir}
use dev_connect.Connect.{Options, Prepared, Resolved, prepare, prepared_of, new_state, ssh_options}
use dev_connect.Connect.Artifacts.{prepare_ok}
use dev_connect.Cli.Sessions.{cleanup_session_artifacts, disconnect, end_session, stored}

-- A file at none of two paths is as it was.
kept_by_two :
    (w : World) (a b q x y : Text) (m : ℕ)
    → is_nil a ≡ false
    → is_nil b ≡ false
    → (not (is_nil a) && equal a q || not (is_nil b) && equal b q) ≡ false
    → (put (put w b y m) a x m).file q ≡ w.file q
unfolding update
kept_by_two w a b q x y m ha hb h =
    let not_a : equal a q ≡ false = ground arith in
    let not_b : equal b q ≡ false = ground arith in rw (not_a, not_b)

-- What `WriteSessionFiles` has not written is as it was.
kept_file :
    (so : SessionOptions) (q : Text) (w : World)
    → is_named (session_files so) q ≡ false
    → (prepared so w).file q ≡ w.file q
unfolding is_named session_files
kept_file so q w =
    kept_by_two w (session_files so).config_path (session_files so).known_hosts_path q _ _ _
      (join_path-given so.dir (codes "ssh_config") ssh_config-IsName)
      (join_path-given so.dir (codes "known_hosts") known_hosts-IsName)

module _ (c : Codec) (o : Options) where
  -- The end of a session without a process, a block in the user's configuration or user data.
  disconnect-new_state :
      (r : Resolved) (a : Allocation) (f : SessionFiles) (q : Text) (w : World) {t : Unit {0}}
      {w' : World}
      → load c o.session_dir w ≡ (ok (new_state o r a f), w)
      → disconnect c o.session_dir w ≡ (ok t, w')
      → w'.file q
        ≡ (if equal (path o.session_dir) q then none else if is_named f q then none else w.file q)
  unfolding disconnect new_state terminate_process cleanup_session_artifacts remove_block_from_file
      cleanup_user_data_dir
  disconnect-new_state r a f q w {t} {w'} loaded h =
      let end = λ (x : Result State × World).
        (lift (stored x.0) >>= λ s. end_session c o.session_dir s >> clear o.session_dir) w in
      let ending : end (ok (new_state o r a f), w) ≡ (ok t, w') = ap end (sym loaded) ∙ h in
      let (_, u, ended, cleared) =
        >>=-eq-ok (end_session c o.session_dir (some (new_state o r a f)))
          (λ _. clear o.session_dir) w ending in
      let (_, u0, cleaned, last) = >>=-eq-ok (cleanup f) (λ _. cleanup_user_data_dir []) w ended in
      let (_, same) = pure-eq-ok tt u0 last in
      let (_, ew) =
        remove-eq-some u (path o.session_dir)
          (act-eq-ok (λ x. remove x (path o.session_dir)) _ u cleared) in
      let left = ap (λ (x : World). x.file q) same ∙ cleanup_ok f q w cleaned in
      ap (λ (x : World). x.file q) ew
      ∙ ap (λ (x : Option File). if equal (path o.session_dir) q then none else x) left

  -- The three files of a session.
  abbrev pub is_session_file : SessionFiles → Text → Bool
  is_session_file f q = equal (path o.session_dir) q || is_named f q

  without_session_files :
      (f : SessionFiles) (q : Text) (w w1 v : World) (stored_file : Option File)
      {left : Option File}
      → left
        ≡ (if equal (path o.session_dir) q then none else if is_named f q then none else w1.file q)
      → w1.file q ≡ update v.file (path o.session_dir) stored_file q
      → (is_named f q ≡ false → v.file q ≡ w.file q)
      → left ≡ (if is_session_file f q then none else w.file q)
  unfolding update
  without_session_files f q w w1 v stored_file e at_q kept =
      elim (Bool-cases (equal (path o.session_dir) q)) [
        | inl here ↦ e ∙ rw (here)
        | inr there ↦ elim (Bool-cases (is_named f q)) [
          | inl named ↦ e ∙ rw (there, named)
          | inr other ↦
              let before : w1.file q ≡ v.file q = rw (there) at at_q in
              e ∙ rw (there, other) (before ∙ kept other)
        ]
      ]

  -- `disconnect` behind `Prepare` undoes it: where both succeed, the session's texts are valid UTF-8
  -- and its file can be read, its three files are gone, and every other file is as it was before.
  pub disconnect-prepare :
      (q : Text) (w : World) {p : Prepared} {w1 : World} {t : Unit {0}} {w2 : World}
      → prepare c o w ≡ (ok p, w1)
      → has_utf8 p.state ≡ true
      → w.refuses Call.to_read (path o.session_dir) ≡ false
      → disconnect c o.session_dir w1 ≡ (ok t, w2)
      → w2.file q ≡ (if is_session_file p.ssh_files q then none else w.file q)
  unfolding prepared_of
  disconnect-prepare q w {p} {w1} made utf8 readable ended =
      let (s, loaded, _, _) = prepare_ok c o w made utf8 readable in
      let so = ssh_options o s.resolved s.allocation in
      let f = session_files so in
      let same : p ≡ prepared_of o s.resolved s.allocation f = s.result in
      let loaded' : load c o.session_dir w1 ≡ (ok (new_state o s.resolved s.allocation f), w1) =
        loaded ∙ (λ i. (ok (same i).state, w1)) in
      let left = disconnect-new_state s.resolved s.allocation f q w1 loaded' ended in
      let (_, _, _, saved) = save_ok c o.session_dir p.state (prepared so w) s.saved in
      let at_q : w1.file q ≡ update (prepared so w).file (path o.session_dir) _ q =
        ap (λ (x : World). x.file q) saved in
      without_session_files f q w w1 (prepared so w) _ left at_q (kept_file so q w)
      ∙ ap (λ (x : Prepared). if is_session_file x.ssh_files q then none else w.file q) (sym same)
