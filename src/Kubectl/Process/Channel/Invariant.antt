-- ===== src/Kubectl/Process/Channel/Invariant.antt =====
-- internal/kubectl/runner.go: what holds in every state that `RunUntilReady` can reach.
use dev_connect.Prelude.{Bool, true, false, ◌||◌, List, [], ◌∷◌, ◌++◌, ◌≡◌, refl, arith, append-nil}
use dev_connect.Text.{Text}
use dev_connect.Kubectl.Process.Pipes.{Stream, to_stdout, to_stderr}
use dev_connect.Kubectl.Process.Logs.{any_ready}
use dev_connect.Kubectl.Process.Channel.{
  Sent, sent_line, sent_error, System, start, Step, scan_stdout, scan_stderr, lose_stdout,
  lose_stderr, cut_stdout, cut_stderr, fail_stdout, fail_stderr, finish, receive, receive_ready,
  receive_error, receive_exit, cancel, Reach, begun, later,
}
use dev_connect.Kubectl.Process.Channel.Lines.{
  of_stdout, of_stderr, of_stdout-append, of_stderr-append, Begins-self,
}
use dev_connect.Kubectl.Process.Channel.Streams.{Streams, received_by, StreamsOf, Step-Streams}
use dev_connect.Kubectl.Process.Channel.Judged.{
  Judged, any_ready-append, Judged-finish, looping-quiet, stopped_idle,
}

pub Streams-start :
    (outs errs : List Text) → Streams outs errs [] (start outs errs).captured outs errs []
Streams-start outs errs = record {
  bounded = omega arith;
  stdout_captured = refl;
  stderr_captured = refl;
  stdout_in_order = Begins-self outs;
  stderr_in_order = Begins-self errs;
}

module _ (ready : Text → Bool) where
  -- What the state of the loop says of the lines that were received.
  abbrev pub JudgedOf : System → List Sent → Type 0
  JudgedOf s r = Judged ready s.loop s.process s.captured (of_stdout r) (of_stderr r)

  quiet_line :
      (stream : Stream) (t : Text) (r : List Sent)
      → ready t ≡ false
      → (any_ready ready (of_stdout r) ≡ false) × (any_ready ready (of_stderr r) ≡ false)
      → (any_ready ready (of_stdout (r ++ sent_line stream t ∷ [])) ≡ false)
        × (any_ready ready (of_stderr (r ++ sent_line stream t ∷ [])) ≡ false)
  quiet_line to_stdout t r n (o, e) = (
    rw (of_stdout-append r (sent_line to_stdout t ∷ []), any_ready-append ready (of_stdout r) t)
        (ground arith),
    rw (of_stderr-append r (sent_line to_stdout t ∷ []), append-nil) e,
  )
  quiet_line to_stderr t r n (o, e) = (
    rw (of_stdout-append r (sent_line to_stderr t ∷ []), append-nil) o,
    rw (of_stderr-append r (sent_line to_stderr t ∷ []), any_ready-append ready (of_stderr r) t)
        (ground arith),
  )

  ready_line :
      (stream : Stream) (t : Text) (r : List Sent)
      → ready t ≡ true
      → (any_ready ready (of_stdout (r ++ sent_line stream t ∷ []))
          || any_ready ready (of_stderr (r ++ sent_line stream t ∷ [])))
        ≡ true
  ready_line to_stdout t r y =
      let shown = any_ready-append ready (of_stdout r) t in
      rw (of_stdout-append r (sent_line to_stdout t ∷ [])) (ground arith)
  ready_line to_stderr t r y =
      let shown = any_ready-append ready (of_stderr r) t in
      rw (of_stderr-append r (sent_line to_stderr t ∷ [])) (ground arith)

  Step-Judged :
      (outs errs : List Text) {s t : System} (st : Step ready s t) (r : List Sent)
      → JudgedOf s r
      → JudgedOf t (received_by outs errs ready st r)
  Step-Judged outs errs (scan_stdout e room) r v = v
  Step-Judged outs errs (scan_stderr e room) r v = v
  Step-Judged outs errs lose_stdout r v = v
  Step-Judged outs errs lose_stderr r v = v
  Step-Judged outs errs (cut_stdout a b e c room) r v = v
  Step-Judged outs errs (cut_stderr a b e c room) r v = v
  Step-Judged outs errs (fail_stdout room) r v = v
  Step-Judged outs errs (fail_stderr room) r v = v
  Step-Judged outs errs {s} (finish e p) r v =
      Judged-finish ready s.loop s.process e s.captured (of_stdout r) (of_stderr r) p v
  Step-Judged outs errs {s} (receive {stream} {t} l e n) r v = rw l (
      quiet_line stream t r n
        (looping-quiet ready s.loop s.process s.captured (of_stdout r) (of_stderr r) l v))
  Step-Judged outs errs {s} (receive_ready {stream} {t} l e y) r v =
      (ready_line stream t r y, stopped_idle s.process, refl)
  Step-Judged outs errs {s} (receive_error {stream} l e) r v =
      rw
        (
          of_stdout-append r (sent_error stream ∷ []),
          of_stderr-append r (sent_error stream ∷ []),
          append-nil,
          append-nil,
        )
        v
  Step-Judged outs errs {s} (receive_exit {e} l p) r v =
      let (quiet, still) =
        looping-quiet ready s.loop s.process s.captured (of_stdout r) (of_stderr r) l v in
      (e, quiet, still, p, refl)
  Step-Judged outs errs {s} (cancel l) r v =
      let (quiet, still) =
        looping-quiet ready s.loop s.process s.captured (of_stdout r) (of_stderr r) l v in
      (quiet, still, stopped_idle s.process, refl)

  -- What holds in every state, for some events that were received.
  pub record Inv (outs errs : List Text) (s : System) : Type 0 where
    pub received : List Sent
    pub streams : StreamsOf outs errs ready s received
    pub judged : JudgedOf s received

  -- In every state that a call of `RunUntilReady` can reach, in whatever order the process, the two
  -- scanners and the loop take their steps: the channel holds two events at most; the lines of a
  -- stream that were captured, with those in the channel and those not yet scanned, are the first
  -- lines that the process writes there, in their order, where the last of them may be cut; and the
  -- call has returned as ready, with the process over or killed, if and only if a captured line
  -- shows it. If it has returned otherwise the process is over, or was killed because of the
  -- context.
  pub Reach-Inv : (outs errs : List Text) {s : System} → Reach ready outs errs s → Inv outs errs s
  unfolding any_ready
  Reach-Inv outs errs begun = record {
    received = [];
    streams = Streams-start outs errs;
    judged = (refl, refl);
  }
  Reach-Inv outs errs (later r st) =
      let v = Reach-Inv outs errs r in
      record {
        received = received_by outs errs ready st v.received;
        streams = Step-Streams outs errs ready st v.received v.streams;
        judged = Step-Judged outs errs st v.received v.judged;
      }
