-- ===== src/Kubectl/Process/Channel/Refines.antt =====
-- internal/kubectl/runner.go: the interleaved system behind `RunUntilReady` implements its loop over
-- the sequence of events that it has received.
use dev_connect.Prelude.{Bool, true, false, Option, List, [], ◌∷◌, ◌++◌, ◌≡◌, refl, ap, ◌∙◌}
use dev_connect.Text.{Text}
use dev_connect.Kubectl.Process.Exit.{WaitError}
use dev_connect.Kubectl.Process.Pipes.{
  Stream, Events, line, broken, exited, done, Captured, nothing_captured, take_line, ended_ready,
  until_ready,
}
use dev_connect.Kubectl.Process.Channel.{
  ProcessState, running, over, LoopState, looping, returned_ready, returned_exit, returned_canceled,
  Sent, sent_line, sent_error, System, Step, scan_stdout, scan_stderr, lose_stdout, lose_stderr,
  cut_stdout, cut_stderr, fail_stdout, fail_stderr, finish, receive, receive_ready, receive_error,
  receive_exit, cancel, Reach, begun, later,
}
use dev_connect.Kubectl.Process.Channel.Streams.{received_by, StreamsOf, Step-Streams}
use dev_connect.Kubectl.Process.Channel.Invariant.{Streams-start}

-- What the loop receives when these events are sent before others.
abbrev pub then_events : List Sent → Events → Events
then_events [] x = x
then_events (sent_line stream t ∷ sent) x = line stream t (then_events sent x)
then_events (sent_error stream ∷ sent) x = broken stream (then_events sent x)

then_events-append :
    (a b : List Sent) (x : Events) → then_events (a ++ b) x ≡ then_events a (then_events b x)
then_events-append [] b x = refl
then_events-append (sent_line stream t ∷ a) b x = ap (line stream t) (then_events-append a b x)
then_events-append (sent_error stream ∷ a) b x = ap (broken stream) (then_events-append a b x)

module _ (ready : Text → Bool) where
  -- The loop on what was received and then on the end of the process or of the context, or, before
  -- such an end, on whatever comes next.
  abbrev pub Explained : LoopState → ProcessState → Captured → List Sent → Type 0
  Explained looping p c received =
      (x : Events)
      → until_ready ready nothing_captured (then_events received x) ≡ until_ready ready c x
  Explained (returned_ready e) p c received =
      (x : Events) → until_ready ready nothing_captured (then_events received x) ≡ e
  Explained (returned_exit e) p c received =
      (x : Option WaitError) × (p ≡ over x)
      × (until_ready ready nothing_captured (then_events received (exited x)) ≡ e)
  Explained (returned_canceled e) p c received =
      until_ready ready nothing_captured (then_events received done) ≡ e

  while_looping :
      (l : LoopState) (p : ProcessState) (c : Captured) (received : List Sent)
      → l ≡ looping
      → Explained l p c received
      → Explained looping p c received
  while_looping looping p c received h x = x
  while_looping (returned_ready e) p c received h x = cc
  while_looping (returned_exit e) p c received h x = cc
  while_looping (returned_canceled e) p c received h x = cc

  Explained-finish :
      (l : LoopState) (p : ProcessState) (c : Captured) (received : List Sent)
      (e : Option WaitError)
      → p ≡ running
      → Explained l p c received
      → Explained l (over e) c received
  Explained-finish looping p c received e h x = x
  Explained-finish (returned_ready y) p c received e h x = x
  Explained-finish (returned_exit y) p c received e h (z, at, same) = cc
  Explained-finish (returned_canceled y) p c received e h x = x

  -- The loop on one more event.
  one_more :
      (p : ProcessState) (c : Captured) (received : List Sent) (s : Sent)
      → Explained looping p c received
      → (x : Events)
      → until_ready ready nothing_captured (then_events (received ++ s ∷ []) x)
        ≡ until_ready ready c (then_events (s ∷ []) x)
  one_more p c received s same x =
      ap (until_ready ready nothing_captured) (then_events-append received (s ∷ []) x)
      ∙ same (then_events (s ∷ []) x)

  -- A line, and the end of a scanner, as the loop takes them.
  quiet_line :
      (c : Captured) (stream : Stream) (t : Text) (x : Events)
      → ready t ≡ false
      → until_ready ready c (line stream t x) ≡ until_ready ready (take_line stream t c) x
  unfolding until_ready
  quiet_line c stream t x n = rw (n)

  ready_line :
      (c : Captured) (stream : Stream) (t : Text) (x : Events)
      → ready t ≡ true
      → until_ready ready c (line stream t x) ≡ ended_ready (take_line stream t c)
  unfolding until_ready
  ready_line c stream t x y = rw (y)

  abbrev pub ExplainedOf : System → List Sent → Type 0
  ExplainedOf s received = Explained s.loop s.process s.captured received

  Step-Explained :
      (outs errs : List Text) {s t : System} (st : Step ready s t) (r : List Sent)
      → ExplainedOf s r
      → ExplainedOf t (received_by outs errs ready st r)
  unfolding until_ready
  Step-Explained outs errs (scan_stdout e room) r v = v
  Step-Explained outs errs (scan_stderr e room) r v = v
  Step-Explained outs errs lose_stdout r v = v
  Step-Explained outs errs lose_stderr r v = v
  Step-Explained outs errs (cut_stdout a b e c room) r v = v
  Step-Explained outs errs (cut_stderr a b e c room) r v = v
  Step-Explained outs errs (fail_stdout room) r v = v
  Step-Explained outs errs (fail_stderr room) r v = v
  Step-Explained outs errs {s} (finish e p) r v =
      Explained-finish s.loop s.process s.captured r e p v
  Step-Explained outs errs {s} (receive {stream} {t} l e n) r v =
      let same =
        one_more s.process s.captured r (sent_line stream t)
          (while_looping s.loop s.process s.captured r l v) in
      rw l (λ x. same x ∙ quiet_line s.captured stream t x n)
  Step-Explained outs errs {s} (receive_ready {stream} {t} l e y) r v = λ x.
      one_more s.process s.captured r (sent_line stream t)
        (while_looping s.loop s.process s.captured r l v) x
      ∙ ready_line s.captured stream t x y
  Step-Explained outs errs {s} (receive_error {stream} l e) r v =
      let same =
        one_more s.process s.captured r (sent_error stream)
          (while_looping s.loop s.process s.captured r l v) in
      rw l (λ x. same x)
  Step-Explained outs errs {s} (receive_exit {e} l p) r v =
      (e, p, while_looping s.loop s.process s.captured r l v (exited e))
  Step-Explained outs errs {s} (cancel l) r v = while_looping s.loop s.process s.captured r l v done

  -- Whatever the order of the steps of the process, the scanners and the loop: there is a sequence
  -- of events whose lines of each stream are in the buffers and are, with those in the channel and
  -- those not yet scanned, the first lines that the process writes there, in their order, where the
  -- last of them may be cut. A call of `RunUntilReady` that has returned gives what its loop gives
  -- on this sequence: as ready, whatever comes behind it; or followed by the end of the process,
  -- which is then over with that result, or by the end of the context. A call that has not returned
  -- goes on from its buffers as its loop does behind this sequence.
  pub Reach-Explained :
      (outs errs : List Text) {s : System}
      → Reach ready outs errs s
      → (received : List Sent) × StreamsOf outs errs ready s received × ExplainedOf s received
  Reach-Explained outs errs begun = ([], Streams-start outs errs, λ x. refl)
  Reach-Explained outs errs (later r st) =
      let (received, streams, same) = Reach-Explained outs errs r in
      (
        received_by outs errs ready st received,
        Step-Streams outs errs ready st received streams,
        Step-Explained outs errs st received same,
      )
