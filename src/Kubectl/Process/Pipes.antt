-- ===== src/Kubectl/Process/Pipes.antt =====
-- internal/kubectl/runner.go: the loop of `RunUntilReady`, over what its channels give.
use dev_connect.Prelude.{
  Bool, true, false, Option, none, some, [], ◌∷◌, ◌++◌, ℤ, pos, negsuc, if◌then◌else◌,
}
use dev_connect.Text.{Text}
use dev_connect.Result.{Error, run_until_ready_failed, canceled}
use dev_connect.Kubectl.{Output}
use dev_connect.Kubectl.Process.Exit.{WaitError, exit_failure, output_of}

pub data Stream : Type 0 where
  to_stdout to_stderr : Stream

-- What the loop receives, one after the other: a line of a stream, the end of a scanner by an
-- error, the end of the process, or the end of the context. The loop ends with either of the last.
pub data Events : Type 0 where
  line : Stream → Text → Events → Events
  broken : Stream → Events → Events
  exited : Option WaitError → Events
  done : Events

-- The two buffers.
pub record Captured : Type 0 where
  pub stdout : Text
  pub stderr : Text

abbrev pub nothing_captured : Captured
nothing_captured = record { stdout = []; stderr = [] }

unfoldable pub take_line : Stream → Text → Captured → Captured
take_line to_stdout t c = record c { stdout = c.stdout ++ (t ++ b'\n' ∷ []) }
take_line to_stderr t c = record c { stderr = c.stderr ++ (t ++ b'\n' ∷ []) }

-- What the call returns, and whether it has stopped the process.
pub record Ended : Type 0 where
  pub output : Output
  pub error : Option Error
  pub is_stopped : Bool

abbrev pub with_code : Captured → ℤ → Output
with_code c code = record { stdout = c.stdout; stderr = c.stderr; exit_code = code }

unfoldable pub ended_ready : Captured → Ended
ended_ready c = record { output = with_code c (pos 0); error = none; is_stopped = true }

unfoldable pub ended_exit : Captured → Option WaitError → Ended
unfolding output_of exit_failure
ended_exit c e = record {
  output = output_of c.stdout c.stderr e;
  error = exit_failure run_until_ready_failed (output_of c.stdout c.stderr e) e;
  is_stopped = false;
}

unfoldable pub ended_canceled : Captured → Ended
ended_canceled c = record {
  output = with_code c (negsuc 0);
  error = some canceled;
  is_stopped = true;
}

unfoldable pub until_ready : (Text → Bool) → Captured → Events → Ended
unfolding take_line ended_ready ended_exit ended_canceled
until_ready ready c (line stream t more) =
    let rest = until_ready ready (take_line stream t c) more in
    if ready t then ended_ready (take_line stream t c) else rest
until_ready ready c (broken stream more) = until_ready ready c more
until_ready ready c (exited e) = ended_exit c e
until_ready ready c done = ended_canceled c
