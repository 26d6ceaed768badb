-- ===== src/Cli/Sessions.antt =====
-- cmd/dev-connect/main.go: the session that an earlier run has left, and its end.
pub mod RoundTrip
use dev_connect.Prelude.{
  false, Option, none, some, ◌≡◌, ◌⊎◌, inl, inr, refl, sym, ap, ◌∙◌, if◌then◌else◌, Bool-cases,
}
use dev_connect.Text.{Text}
use dev_connect.Result.{Result, ok, err, session_not_found, session_locked}
use dev_connect.World.{World, Call, update_self, remove}
use dev_connect.World.Steps.{M, ◌>>=◌, ◌>>◌, lift, pure, ignore}
use dev_connect.World.Frame.{>>=-eq-ok, pure-eq-ok, lift-eq-ok, remove-eq-some, act-eq-ok}
use dev_connect.Session.{State}
use dev_connect.Session.Store.{Codec, load, clear, path}
use dev_connect.Session.Persistence.{load-clear}
use dev_connect.Session.Process.{is_stale, process_exists, terminate_process}
use dev_connect.SshConfig.Write.{cleanup}
use dev_connect.SshConfig.UserConfig.{remove_block_from_file}
use dev_connect.Vscode.UserData.{cleanup_user_data_dir}

unfoldable pub cleanup_session_artifacts : State → M (Unit {0})
unfolding remove_block_from_file cleanup cleanup_user_data_dir
cleanup_session_artifacts s = do
  remove_block_from_file s.user_ssh_config_path s.target
  cleanup (record { config_path = s.ssh_config_path; known_hosts_path = s.known_hosts_path })
  cleanup_user_data_dir s.vscode_user_data_dir

-- What `Load` gave, where a missing session is no error.
abbrev pub stored : Result State → Result (Option State)
stored (ok s) = ok (some s)
stored (err session_not_found) = ok none
stored (err e) = err e

clear_file :
    (dir : Text) (w : World) {t : Unit {0}} {w' : World}
    → clear dir w ≡ (ok t, w')
    → w'.file (path dir) ≡ none
unfolding clear
clear_file dir w h =
    let (_, ew) = remove-eq-some w (path dir) (act-eq-ok (λ x. remove x (path dir)) _ w h) in
    ap (λ (x : World). x.file (path dir)) ew ∙ update_self w.file (path dir) none

stored-eq-none : (r : Result State) → stored r ≡ ok none → r ≡ err session_not_found
stored-eq-none (ok s) h = cc
stored-eq-none (err session_not_found) h = refl
stored-eq-none (err e) h = cc

module _ (c : Codec) (dir : Text) where
  -- `exists` is asked of the process in the state.
  abbrev pub judge_session : World → Option State → M (Unit {0})
  judge_session w none = pure tt
  judge_session w (some s) =
      if is_stale s (process_exists w)
      then cleanup_session_artifacts s >> clear dir
      else lift (err session_locked)

  unfoldable pub ensure_no_active_session : M (Unit {0})
  unfolding load cleanup_session_artifacts clear is_stale process_exists
  ensure_no_active_session w = (lift (stored (load c dir w).0) >>= judge_session w) w

  -- The end of the process is asked for, and a failure of that is ignored.
  abbrev pub end_session : Option State → M (Unit {0})
  end_session none = pure tt
  end_session (some s) =
      ignore (terminate_process s.port_forward_pid) >> cleanup_session_artifacts s

  unfoldable pub disconnect : M (Unit {0})
  unfolding load cleanup_session_artifacts terminate_process clear
  disconnect w = (lift (stored (load c dir w).0) >>= λ s. end_session s >> clear dir) w

  -- After a successful `disconnect` there is no session, unless the file cannot be read.
  pub load-disconnect :
      (w : World) {t : Unit {0}} {w' : World}
      → disconnect w ≡ (ok t, w')
      → w'.refuses Call.to_read (path dir) ≡ false
      → load c dir w' ≡ (err session_not_found, w')
  unfolding disconnect
  load-disconnect w {t} {w'} h r =
      let (s, w0, _, h1) =
        >>=-eq-ok (lift (stored (load c dir w).0)) (λ s. end_session s >> clear dir) w h in
      let (_, w1, _, h2) = >>=-eq-ok (end_session s) (λ _. clear dir) w0 h1 in
      let (_, ew) = remove-eq-some w1 (path dir) (act-eq-ok (λ x. remove x (path dir)) _ w1 h2) in
      load-clear c dir w1 h2 (ap (λ (x : World). x.refuses Call.to_read (path dir)) (sym ew) ∙ r)

  -- As long as the process of the stored session runs, or has not been started, the session is kept
  -- and nothing is changed.
  pub ensure_no_active_session_locked :
      (w : World) {s : State} {u : World}
      → load c dir w ≡ (ok s, u)
      → is_stale s (process_exists w) ≡ false
      → ensure_no_active_session w ≡ (err session_locked, w)
  unfolding ensure_no_active_session
  ensure_no_active_session_locked w h live = rw (ap (λ (r : Result State × World). r.0) h, live)

  judge_session-eq-ok :
      (v w : World) (s : Option State) {t : Unit {0}} {w' : World}
      → judge_session v s w ≡ (ok t, w')
      → (s ≡ none × w' ≡ w) ⊎ (w'.file (path dir) ≡ none)
  judge_session-eq-ok v w none h = inl (refl, (pure-eq-ok tt w h).1)
  judge_session-eq-ok v w (some s) {t} {w'} h = elim (Bool-cases (is_stale s (process_exists v))) [
    | inr e ↦
        let no_ok : ◌≡◌ {A = Result (Unit {0}) × World} (err session_locked, w) (ok t, w') =
          rw (e) at h in
        cc
    | inl e ↦
        let stale : (cleanup_session_artifacts s >> clear dir) w ≡ (ok t, w') = rw (e) at h in
        let (_, u, _, cleared) = >>=-eq-ok (cleanup_session_artifacts s) (λ _. clear dir) w stale in
        inr (clear_file dir u cleared)
  ]

  -- Where the check lets a new session begin, none was stored and nothing was changed, or the file
  -- of the session that was stored is gone.
  pub ensure_no_active_session_ok :
      (w : World) {t : Unit {0}} {w' : World}
      → ensure_no_active_session w ≡ (ok t, w')
      → ((load c dir w).0 ≡ err session_not_found × w' ≡ w) ⊎ (w'.file (path dir) ≡ none)
  unfolding ensure_no_active_session
  ensure_no_active_session_ok w h =
      let (s, u, found, judged) =
        >>=-eq-ok (lift (stored (load c dir w).0)) (judge_session w) w h in
      let (is_stored, same) = lift-eq-ok (stored (load c dir w).0) w found in
      elim (judge_session-eq-ok w u s judged) [
        | inl (nothing, kept) ↦
            inl (stored-eq-none (load c dir w).0 (is_stored ∙ ap ok nothing), kept ∙ same)
        | inr cleared ↦ inr cleared
      ]
