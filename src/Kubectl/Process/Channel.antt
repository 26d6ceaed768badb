-- ===== src/Kubectl/Process/Channel.antt =====
-- internal/kubectl/runner.go: the processes and goroutines behind the loop of `RunUntilReady`, in
-- any order of their steps. Two scanners send lines through a channel that holds two events; the
-- loop receives them, the end of the process, or the end of the context, whichever it picks.
pub mod Lines
pub mod Streams
pub mod Judged
pub mod Refines
pub mod Invariant
use dev_connect.Prelude.{ℕ, ◌<◌, Bool, true, false, Option, List, [], ◌∷◌, ◌++◌, ◌≡◌, length}
use dev_connect.Text.{Text}
use dev_connect.Kubectl.Process.Exit.{WaitError}
use dev_connect.Kubectl.Process.Pipes.{
  Stream, to_stdout, to_stderr, Captured, nothing_captured, take_line, Ended, ended_ready,
  ended_exit, ended_canceled,
}

-- The process, which the call may have killed.
pub data ProcessState : Type 0 where
  running killed : ProcessState
  over : Option WaitError → ProcessState

-- `stopProcess`: there is nothing to kill where the process is over.
abbrev pub stopped : ProcessState → ProcessState
stopped running = killed
stopped killed = killed
stopped (over e) = over e

abbrev pub is_running : ProcessState → Bool
is_running running = true
is_running killed = false
is_running (over e) = false

-- The loop, and what the call has returned.
pub data LoopState : Type 0 where
  looping : LoopState
  returned_ready : Ended → LoopState
  returned_exit : Ended → LoopState
  returned_canceled : Ended → LoopState

-- An event of the channel: a line, or the end of a scanner by an error.
pub data Sent : Type 0 where
  sent_line : Stream → Text → Sent
  sent_error : Stream → Sent

pub record System : Type 0 where
  pub stdout_left : List Text
  pub stderr_left : List Text
  pub channel : List Sent
  pub captured : Captured
  pub process : ProcessState
  pub loop : LoopState

abbrev pub capacity : ℕ
capacity = 2

abbrev pub start : List Text → List Text → System
start outs errs = record {
  stdout_left = outs;
  stderr_left = errs;
  channel = [];
  captured = nothing_captured;
  process = running;
  loop = looping;
}

-- One step of one part. A pipe can end before all of it was read: `Wait` closes the pipes once the
-- process is over, and a scanner stops at a line that is too long. Then the rest is lost (`lose`);
-- in the middle of a line the scanner first sends the part that it has read (`cut`); and it may send
-- the error (`fail`), which the loop passes over.
pub data Step (ready : Text → Bool) (s : System) : System → Type 0 where
  scan_stdout :
      {t : Text} {ts : List Text}
      → s.stdout_left ≡ t ∷ ts
      → length s.channel < capacity
      → Step ready s
          (record s { stdout_left = ts; channel = s.channel ++ sent_line to_stdout t ∷ [] })
  scan_stderr :
      {t : Text} {ts : List Text}
      → s.stderr_left ≡ t ∷ ts
      → length s.channel < capacity
      → Step ready s
          (record s { stderr_left = ts; channel = s.channel ++ sent_line to_stderr t ∷ [] })
  lose_stdout : Step ready s (record s { stdout_left = [] })
  lose_stderr : Step ready s (record s { stderr_left = [] })
  cut_stdout :
      {t : Text} {ts : List Text} (read unread : Text)
      → s.stdout_left ≡ t ∷ ts
      → t ≡ read ++ unread
      → length s.channel < capacity
      → Step ready s
          (record s { stdout_left = []; channel = s.channel ++ sent_line to_stdout read ∷ [] })
  cut_stderr :
      {t : Text} {ts : List Text} (read unread : Text)
      → s.stderr_left ≡ t ∷ ts
      → t ≡ read ++ unread
      → length s.channel < capacity
      → Step ready s
          (record s { stderr_left = []; channel = s.channel ++ sent_line to_stderr read ∷ [] })
  fail_stdout :
      length s.channel < capacity
      → Step ready s
          (record s { stdout_left = []; channel = s.channel ++ sent_error to_stdout ∷ [] })
  fail_stderr :
      length s.channel < capacity
      → Step ready s
          (record s { stderr_left = []; channel = s.channel ++ sent_error to_stderr ∷ [] })
  finish :
      (e : Option WaitError) → s.process ≡ running → Step ready s (record s { process = over e })
  receive :
      {stream : Stream} {t : Text} {more : List Sent}
      → s.loop ≡ looping
      → s.channel ≡ sent_line stream t ∷ more
      → ready t ≡ false
      → Step ready s (record s { channel = more; captured = take_line stream t s.captured })
  receive_ready :
      {stream : Stream} {t : Text} {more : List Sent}
      → s.loop ≡ looping
      → s.channel ≡ sent_line stream t ∷ more
      → ready t ≡ true
      → Step ready s (record s {
        channel = more;
        captured = take_line stream t s.captured;
        process = stopped s.process;
        loop = returned_ready (ended_ready (take_line stream t s.captured));
      })
  receive_error :
      {stream : Stream} {more : List Sent}
      → s.loop ≡ looping
      → s.channel ≡ sent_error stream ∷ more
      → Step ready s (record s { channel = more })
  receive_exit :
      {e : Option WaitError}
      → s.loop ≡ looping
      → s.process ≡ over e
      → Step ready s (record s { loop = returned_exit (ended_exit s.captured e) })
  cancel :
      s.loop ≡ looping
      → Step ready s (record s {
        process = stopped s.process;
        loop = returned_canceled (ended_canceled s.captured);
      })

-- The states that are reached from a process that is going to write these lines.
pub data Reach (ready : Text → Bool) (outs errs : List Text) : System → Type 0 where
  begun : Reach ready outs errs (start outs errs)
  later : {s t : System} → Reach ready outs errs s → Step ready s t → Reach ready outs errs t
