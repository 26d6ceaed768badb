-- ===== src/Vscode/Launch.antt =====
-- internal/vscode/launcher.go and internal/vscode/remote_setup.go: the runs of the launcher and of
-- ssh, and what their ends mean. Their processes are run by the interface `Exec`; the one with a
-- standard input is an argument of its own.
use dev_connect.Prelude.{Option, none, some, List}
use dev_connect.Text.{Text, trim_space}
use dev_connect.Result.{Result, ok, err, launch_failed, launcher_exited, remote_setup_failed}
use dev_connect.Kubectl.Process.{Exec, Completed}
use dev_connect.Kubectl.Process.Exit.{exit_error, other_error, cause_of}
use dev_connect.Vscode.Launcher.{LaunchOptions, LaunchCommand, launch_command}
use dev_connect.Vscode.Setup.{RemoteSetupOptions, RemoteCommand, Settings, configure_remote}

unfoldable pub judge_launch : Completed → Result (Unit {0})
judge_launch c = elim c.error [
  | none ↦ ok tt
  | some e ↦ elim e [
    | exit_error code ↦ err (launcher_exited code c.stderr)
    | other_error message ↦ err (launch_failed (cause_of (other_error message)))
  ]
]

-- The message carries the error output without white space around it.
unfoldable pub judge_remote : Completed → Result (Unit {0})
unfolding trim_space
judge_remote c = elim c.error [
  | none ↦ ok tt
  | some e ↦ err (remote_setup_failed (cause_of e) (trim_space c.stderr))
]

module _ {S : Type 0} where
  abbrev run_launch : Exec S → Result LaunchCommand → S → Result (Unit {0}) × S
  run_launch exec (err e) s = (err e, s)
  run_launch exec (ok c) s =
      let r = exec.run (record { path = c.path; args = c.args; env = c.env }) s in
      (judge_launch r.0, r.1)

  -- A base environment that is nil is that of the program.
  abbrev pub base_env : Exec S → Option (List Text) → List Text
  base_env exec none = exec.environ
  base_env exec (some env) = env

  unfoldable pub launch :
      Exec S → Text → Option (List Text) → LaunchOptions → S → Result (Unit {0}) × S
  unfolding launch_command judge_launch
  launch exec path env o s = run_launch exec (launch_command path (base_env exec env) o) s

  abbrev run_script :
      (RemoteCommand → S → Completed × S) → Result RemoteCommand → S → Result (Unit {0}) × S
  run_script run (err e) s = (err e, s)
  run_script run (ok c) s = let r = run c s in (judge_remote r.0, r.1)

  unfoldable pub set_up_remote :
      (RemoteCommand → S → Completed × S)
      → (Settings → Text)
      → RemoteSetupOptions
      → S
      → Result (Unit {0}) × S
  unfolding configure_remote judge_remote
  set_up_remote run marshal o s = run_script run (configure_remote marshal o) s
