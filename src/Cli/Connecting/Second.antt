-- ===== src/Cli/Connecting/Second.antt =====
-- cmd/dev-connect/main.go: a `connect` while the session of another one is being prepared.
use dev_connect.Prelude.{true, false, ◌≡◌, refl, ap, ◌∙◌}
use dev_connect.Text.{Text}
use dev_connect.Result.{ok, err, session_locked}
use dev_connect.World.{World, Call}
use dev_connect.Session.Store.{Codec, load, path, has_utf8}
use dev_connect.Session.Process.{is_stale, process_exists}
use dev_connect.SshConfig.{SessionFiles}
use dev_connect.SshConfig.Write.{session_files}
use dev_connect.Port.{Allocation}
use dev_connect.Connect.{Options, Prepared, Resolved, prepare, prepared_of, new_state, ssh_options}
use dev_connect.Connect.Artifacts.{prepare_ok}
use dev_connect.Cli.{CliOptions}
use dev_connect.Cli.Connecting.{Programs, connect}
use dev_connect.Cli.Connecting.Failure.{connect_locked}

-- A session that was prepared has no process yet, and is not stale for that.
prepared_of-fresh :
    (o : Options) (r : Resolved) (a : Allocation) (f : SessionFiles) (w : World)
    → is_stale (prepared_of o r a f).state (process_exists w) ≡ false
unfolding is_stale prepared_of new_state
prepared_of-fresh o r a f w = refl

module _ (c : Codec) (programs : Programs) (cli : CliOptions) (o next : Options) where
  -- Once `Prepare` has succeeded, and as long as its session has no process yet, another `connect`
  -- with the same session directory, whatever its other options, fails with the error for a locked
  -- session and changes nothing. The texts of the session are valid UTF-8, and its file can be read.
  pub connect-prepare :
      (w : World) {p : Prepared} {w' : World}
      → prepare c o w ≡ (ok p, w')
      → has_utf8 p.state ≡ true
      → w.refuses Call.to_read (path o.session_dir) ≡ false
      → next.session_dir ≡ o.session_dir
      → connect c programs cli next w' ≡ (err session_locked, w')
  connect-prepare w {p} {w'} prepared utf8 readable same =
      let (s, loaded, _, _) = prepare_ok c o w prepared utf8 readable in
      let a = ssh_options o s.resolved s.allocation in
      let idle : is_stale p.state (process_exists w') ≡ false =
        ap (λ (x : Prepared). is_stale x.state (process_exists w')) s.result
        ∙ prepared_of-fresh o s.resolved s.allocation (session_files a) w' in
      connect_locked c programs cli next w' (ap (λ (d : Text). load c d w') same ∙ loaded) idle
