-- ===== src/Kubectl/Process/Exit.antt =====
-- internal/kubectl/runner.go: what the end of a process means.
use dev_connect.Prelude.{not, Option, none, some, [], ℤ, pos, negsuc, is_negative, if◌then◌else◌}
use dev_connect.Text.{Text}
use dev_connect.Result.{Error, kubectl_failed, wait_failed}
use dev_connect.Kubectl.{Output}

-- The error of `cmd.Wait`: an exit code, -1 after a signal, or another failure.
pub data WaitError : Type 0 where
  exit_error : ℤ → WaitError
  other_error : Text → WaitError

unfoldable pub exit_code : Option WaitError → ℤ
exit_code none = pos 0
exit_code (some (exit_error code)) = code
exit_code (some (other_error message)) = negsuc 0

-- The cause that a message wraps.
abbrev pub cause_of : WaitError → Error
cause_of (exit_error code) = wait_failed []
cause_of (other_error message) = wait_failed message

-- An exit code is reported with the error output, any other failure as it is.
unfoldable pub exit_failure : (Error → Error) → Output → Option WaitError → Option Error
exit_failure wrapping o none = none
exit_failure wrapping o (some e) =
    if not (is_negative o.exit_code)
    then some (kubectl_failed o.exit_code o.stderr)
    else some (wrapping (cause_of e))

unfoldable pub output_of : Text → Text → Option WaitError → Output
unfolding exit_code
output_of stdout stderr e = record { stdout = stdout; stderr = stderr; exit_code = exit_code e }
