-- ===== src/Kubectl/Process.antt =====
-- internal/kubectl/runner.go: `ExecutableRunner`, which runs kubectl as a process. What the package
-- os/exec does is the interface `Exec`; what a process does reaches the program as events.
pub mod Exit
pub mod Pipes
pub mod Logs
pub mod Channel
use dev_connect.Prelude.{
  Bool, true, false, not, Option, none, some, List, [], ◌∷◌, ◌++◌, ℤ, pos, negsuc, is_negative,
  if◌then◌else◌, is_nil, ◌⊎◌, inl, inr,
}
use dev_connect.Text.{Text}
use dev_connect.Result.{
  Error, Result, ok, err, kubectl_failed, kubectl_path_required, run_kubectl_failed,
  run_until_ready_failed, start_until_ready_failed, exited_before_readiness, open_stdout_failed,
  open_stderr_failed, start_kubectl_failed, wait_failed, canceled,
}
use dev_connect.Proxy.{Env}
use dev_connect.Kubectl.{Command, Output, StartedProcess, Runner}
use dev_connect.Kubectl.MergeEnv.{merge_env}
use dev_connect.Kubectl.Process.Exit.{WaitError, exit_failure, output_of}
use dev_connect.Kubectl.Process.Pipes.{Events, nothing_captured, until_ready}
use dev_connect.Kubectl.Process.Logs.{Polls, until_logged}

-- A command as the system is given it.
pub record Invocation : Type 0 where
  pub path : Text
  pub args : List Text
  pub env : Env

-- Why a process was not started, with the cause.
pub data StartFailure : Type 0 where
  stdout_failed stderr_failed start_failed : Text → StartFailure

-- What `cmd.Run` leaves behind.
pub record Completed : Type 0 where
  pub stdout : Text
  pub stderr : Text
  pub error : Option WaitError

-- A process whose events are received, or whose files are polled.
pub record Running (E : Type 0) : Type 0 where
  pub pid : ℤ
  pub events : E

-- The packages os and os/exec.
pub record Exec (S : Type 0) : Type 0 where
  pub environ : Env
  pub run : Invocation → S → Completed × S
  pub start_piped : Invocation → S → (StartFailure ⊎ Running Events) × S
  pub start_logged : Invocation → S → (StartFailure ⊎ Running Polls) × S
  pub kill : ℤ → S → S

-- `ExecutableRunner`; a base environment that is nil is that of the program.
pub record ExecutableRunner : Type 0 where
  pub path : Text
  pub base_env : Option Env

abbrev pub start_error : StartFailure → Error
start_error (stdout_failed cause) = open_stdout_failed cause
start_error (stderr_failed cause) = open_stderr_failed cause
start_error (start_failed cause) = start_kubectl_failed cause

-- The output, and the error if there is one.
abbrev pub Outcome : Type 0
Outcome = Output × Option Error

abbrev pub no_output : Output
no_output = record { stdout = []; stderr = []; exit_code = pos 0 }

abbrev pub to_result : Outcome → Result Output
to_result (o, none) = ok o
to_result (o, some e) = err e

module _ {S : Type 0} (exec : Exec S) (runner : ExecutableRunner) where
  unfoldable pub base_env_of : Option Env → Env
  base_env_of none = exec.environ
  base_env_of (some env) = env

  unfoldable pub invocation : Command → Invocation
  unfolding base_env_of merge_env
  invocation command = record {
    path = runner.path;
    args = command.args;
    env = merge_env (base_env_of runner.base_env) command.env;
  }

  unfoldable pub judge_run : Completed → Outcome
  unfolding output_of exit_failure
  judge_run c =
      let o = output_of c.stdout c.stderr c.error in (o, exit_failure run_kubectl_failed o c.error)

  unfoldable pub run : Command → S → Outcome × S
  unfolding invocation judge_run
  run command s =
      if is_nil runner.path
      then ((no_output, some kubectl_path_required), s)
      else let r = exec.run (invocation command) s in (judge_run r.0, r.1)

  -- The process is stopped where the loop says so.
  unfoldable pub follow_pipes : (Text → Bool) → StartFailure ⊎ Running Events → S → Outcome × S
  unfolding until_ready
  follow_pipes ready (inl f) s = ((no_output, some (start_error f)), s)
  follow_pipes ready (inr p) s =
      let e = until_ready ready nothing_captured p.events in
      ((e.output, e.error), if e.is_stopped then exec.kill p.pid s else s)

  unfoldable pub run_until_ready : Command → (Text → Bool) → S → Outcome × S
  unfolding invocation follow_pipes
  run_until_ready command ready s =
      if is_nil runner.path
      then ((no_output, some kubectl_path_required), s)
      else let r = exec.start_piped (invocation command) s in follow_pipes ready r.0 r.1

  unfoldable pub follow_logs :
      (Text → Bool) → StartFailure ⊎ Running Polls → S → Result StartedProcess × S
  unfolding until_logged
  follow_logs ready (inl f) s = (err (start_error f), s)
  follow_logs ready (inr p) s =
      let e = until_logged ready p.pid p.events in
      (e.result, if e.is_stopped then exec.kill p.pid s else s)

  unfoldable pub start_until_ready : Command → (Text → Bool) → S → Result StartedProcess × S
  unfolding invocation follow_logs
  start_until_ready command ready s =
      if is_nil runner.path
      then (err kubectl_path_required, s)
      else let r = exec.start_logged (invocation command) s in follow_logs ready r.0 r.1

  -- The three interfaces that the runner implements.
  unfoldable pub executable_runner : Runner S
  unfolding run run_until_ready start_until_ready
  executable_runner = record {
    run = λ c s. (to_result (run c s).0, (run c s).1);
    run_until_ready =
        some
          (λ c ready s. (to_result (run_until_ready c ready s).0, (run_until_ready c ready s).1));
    start_until_ready = some start_until_ready;
  }
