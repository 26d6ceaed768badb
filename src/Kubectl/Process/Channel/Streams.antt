-- ===== src/Kubectl/Process/Channel/Streams.antt =====
-- internal/kubectl/runner.go: the lines of both streams in the steps of `RunUntilReady`, between the
-- process and the buffers.
use dev_connect.Prelude.{
  ◌≤◌, ◌<◌, Bool, List, [], ◌∷◌, ◌++◌, ◌≡◌, sym, ap, ◌∙◌, arith, length, length-append, append-nil,
  subst,
}
use dev_connect.Text.{Text}
use dev_connect.Kubectl.Process.Pipes.{Stream, to_stdout, to_stderr, Captured, take_line}
use dev_connect.Kubectl.Process.Channel.{
  Sent, sent_line, sent_error, System, capacity, Step, scan_stdout, scan_stderr, lose_stdout,
  lose_stderr, cut_stdout, cut_stderr, fail_stdout, fail_stderr, finish, receive, receive_ready,
  receive_error, receive_exit, cancel,
}
use dev_connect.Kubectl.Process.Channel.Lines.{
  unlines, unlines-append, of_stdout, of_stderr, of_stdout-append, of_stderr-append, InOrder,
  InOrder-scan, InOrder-lose, InOrder-cut, InOrder-receive,
}

-- The events that were received are in the buffers; of each stream they are, with those in the
-- channel and the lines that are left, the first lines that the process writes; and the channel is
-- within its bound.
pub record Streams (outs errs : List Text) (channel : List Sent) (c : Captured)
    (outs_left errs_left : List Text) (received : List Sent) : Type 0 where
  pub bounded : length channel ≤ capacity
  pub stdout_captured : c.stdout ≡ unlines (of_stdout received)
  pub stderr_captured : c.stderr ≡ unlines (of_stderr received)
  pub stdout_in_order : InOrder outs (of_stdout received) (of_stdout channel) outs_left
  pub stderr_in_order : InOrder errs (of_stderr received) (of_stderr channel) errs_left

unlines-snoc :
    (ts : List Text) (t text : Text)
    → text ≡ unlines ts
    → text ++ (t ++ b'\n' ∷ []) ≡ unlines (ts ++ t ∷ [])
unlines-snoc ts t text e = ap (λ x. x ++ (t ++ b'\n' ∷ [])) e ∙ sym (unlines-append ts (t ∷ []))

module _ (outs errs : List Text) where
  send_stdout :
      (ch : List Sent) (c : Captured) (ol el : List Text) (r : List Sent) (x : Text)
      (left : List Text)
      → length ch < capacity
      → InOrder outs (of_stdout r) (of_stdout ch ++ x ∷ []) left
      → Streams outs errs ch c ol el r
      → Streams outs errs (ch ++ sent_line to_stdout x ∷ []) c left el r
  send_stdout ch c ol el r x left room o v = record {
    bounded = omega (arith, length-append ch (sent_line to_stdout x ∷ []));
    stdout_captured = v.stdout_captured;
    stderr_captured = v.stderr_captured;
    stdout_in_order = rw (of_stdout-append ch (sent_line to_stdout x ∷ [])) o;
    stderr_in_order =
        rw (of_stderr-append ch (sent_line to_stdout x ∷ []), append-nil) v.stderr_in_order;
  }

  send_stderr :
      (ch : List Sent) (c : Captured) (ol el : List Text) (r : List Sent) (x : Text)
      (left : List Text)
      → length ch < capacity
      → InOrder errs (of_stderr r) (of_stderr ch ++ x ∷ []) left
      → Streams outs errs ch c ol el r
      → Streams outs errs (ch ++ sent_line to_stderr x ∷ []) c ol left r
  send_stderr ch c ol el r x left room o v = record {
    bounded = omega (arith, length-append ch (sent_line to_stderr x ∷ []));
    stdout_captured = v.stdout_captured;
    stderr_captured = v.stderr_captured;
    stdout_in_order =
        rw (of_stdout-append ch (sent_line to_stderr x ∷ []), append-nil) v.stdout_in_order;
    stderr_in_order = rw (of_stderr-append ch (sent_line to_stderr x ∷ [])) o;
  }

  send_error :
      (ch : List Sent) (c : Captured) (ol el : List Text) (r : List Sent) (stream : Stream)
      → length ch < capacity
      → Streams outs errs ch c ol el r
      → Streams outs errs (ch ++ sent_error stream ∷ []) c ol el r
  send_error ch c ol el r stream room v = record {
    bounded = omega (arith, length-append ch (sent_error stream ∷ []));
    stdout_captured = v.stdout_captured;
    stderr_captured = v.stderr_captured;
    stdout_in_order =
        rw (of_stdout-append ch (sent_error stream ∷ []), append-nil) v.stdout_in_order;
    stderr_in_order =
        rw (of_stderr-append ch (sent_error stream ∷ []), append-nil) v.stderr_in_order;
  }

  close_stdout :
      (ch : List Sent) (c : Captured) (ol el : List Text) (r : List Sent)
      → Streams outs errs ch c ol el r
      → Streams outs errs ch c [] el r
  close_stdout ch c ol el r v = record {
    bounded = v.bounded;
    stdout_captured = v.stdout_captured;
    stderr_captured = v.stderr_captured;
    stdout_in_order = InOrder-lose outs (of_stdout r) (of_stdout ch) ol v.stdout_in_order;
    stderr_in_order = v.stderr_in_order;
  }

  close_stderr :
      (ch : List Sent) (c : Captured) (ol el : List Text) (r : List Sent)
      → Streams outs errs ch c ol el r
      → Streams outs errs ch c ol [] r
  close_stderr ch c ol el r v = record {
    bounded = v.bounded;
    stdout_captured = v.stdout_captured;
    stderr_captured = v.stderr_captured;
    stdout_in_order = v.stdout_in_order;
    stderr_in_order = InOrder-lose errs (of_stderr r) (of_stderr ch) el v.stderr_in_order;
  }

  take :
      (stream : Stream) (t : Text) (more : List Sent) (c : Captured) (ol el : List Text)
      (r : List Sent)
      → Streams outs errs (sent_line stream t ∷ more) c ol el r
      → Streams outs errs more (take_line stream t c) ol el (r ++ sent_line stream t ∷ [])
  unfolding take_line
  take to_stdout t more c ol el r v = record {
    bounded = omega (arith, v.bounded);
    stdout_captured =
        rw (of_stdout-append r (sent_line to_stdout t ∷ []))
          (unlines-snoc (of_stdout r) t c.stdout v.stdout_captured);
    stderr_captured =
        rw (of_stderr-append r (sent_line to_stdout t ∷ []), append-nil) v.stderr_captured;
    stdout_in_order =
        rw (of_stdout-append r (sent_line to_stdout t ∷ []))
          (InOrder-receive outs (of_stdout r) (of_stdout more) ol t v.stdout_in_order);
    stderr_in_order =
        rw (of_stderr-append r (sent_line to_stdout t ∷ []), append-nil) v.stderr_in_order;
  }
  take to_stderr t more c ol el r v = record {
    bounded = omega (arith, v.bounded);
    stdout_captured =
        rw (of_stdout-append r (sent_line to_stderr t ∷ []), append-nil) v.stdout_captured;
    stderr_captured =
        rw (of_stderr-append r (sent_line to_stderr t ∷ []))
          (unlines-snoc (of_stderr r) t c.stderr v.stderr_captured);
    stdout_in_order =
        rw (of_stdout-append r (sent_line to_stderr t ∷ []), append-nil) v.stdout_in_order;
    stderr_in_order =
        rw (of_stderr-append r (sent_line to_stderr t ∷ []))
          (InOrder-receive errs (of_stderr r) (of_stderr more) el t v.stderr_in_order);
  }

  pass_over :
      (stream : Stream) (more : List Sent) (c : Captured) (ol el : List Text) (r : List Sent)
      → Streams outs errs (sent_error stream ∷ more) c ol el r
      → Streams outs errs more c ol el (r ++ sent_error stream ∷ [])
  pass_over stream more c ol el r v = record {
    bounded = omega (arith, v.bounded);
    stdout_captured =
        rw (of_stdout-append r (sent_error stream ∷ []), append-nil) v.stdout_captured;
    stderr_captured =
        rw (of_stderr-append r (sent_error stream ∷ []), append-nil) v.stderr_captured;
    stdout_in_order =
        rw (of_stdout-append r (sent_error stream ∷ []), append-nil) v.stdout_in_order;
    stderr_in_order =
        rw (of_stderr-append r (sent_error stream ∷ []), append-nil) v.stderr_in_order;
  }

  module _ (ready : Text → Bool) where
    -- What the loop has received behind a step.
    abbrev pub received_by : {s t : System} → Step ready s t → List Sent → List Sent
    received_by (receive {stream} {t} l e n) r = r ++ sent_line stream t ∷ []
    received_by (receive_ready {stream} {t} l e y) r = r ++ sent_line stream t ∷ []
    received_by (receive_error {stream} l e) r = r ++ sent_error stream ∷ []
    received_by (scan_stdout e room) r = r
    received_by (scan_stderr e room) r = r
    received_by lose_stdout r = r
    received_by lose_stderr r = r
    received_by (cut_stdout a b e c room) r = r
    received_by (cut_stderr a b e c room) r = r
    received_by (fail_stdout room) r = r
    received_by (fail_stderr room) r = r
    received_by (finish e p) r = r
    received_by (receive_exit l p) r = r
    received_by (cancel l) r = r

    -- The streams in a state of the system.
    abbrev pub StreamsOf : System → List Sent → Type 0
    StreamsOf s r = Streams outs errs s.channel s.captured s.stdout_left s.stderr_left r

    at_channel :
        (s : System) (r : List Sent) {ch : List Sent}
        → s.channel ≡ ch
        → StreamsOf s r
        → Streams outs errs ch s.captured s.stdout_left s.stderr_left r
    at_channel s r e v =
        subst (λ x. Streams outs errs x s.captured s.stdout_left s.stderr_left r) e v

    pub Step-Streams :
        {s t : System} (st : Step ready s t) (r : List Sent)
        → StreamsOf s r
        → StreamsOf t (received_by st r)
    Step-Streams {s} (scan_stdout {t} {ts} e room) r v =
        send_stdout s.channel s.captured s.stdout_left s.stderr_left r t ts room
          (InOrder-scan outs (of_stdout r) (of_stdout s.channel) ts t e v.stdout_in_order) v
    Step-Streams {s} (scan_stderr {t} {ts} e room) r v =
        send_stderr s.channel s.captured s.stdout_left s.stderr_left r t ts room
          (InOrder-scan errs (of_stderr r) (of_stderr s.channel) ts t e v.stderr_in_order) v
    Step-Streams {s} lose_stdout r v = close_stdout s.channel s.captured s.stdout_left _ r v
    Step-Streams {s} lose_stderr r v = close_stderr s.channel s.captured _ s.stderr_left r v
    Step-Streams {s} (cut_stdout {t} {ts} a b e c room) r v =
        send_stdout s.channel s.captured s.stdout_left s.stderr_left r a [] room
          (InOrder-cut outs (of_stdout r) (of_stdout s.channel) ts a b e c v.stdout_in_order) v
    Step-Streams {s} (cut_stderr {t} {ts} a b e c room) r v =
        send_stderr s.channel s.captured s.stdout_left s.stderr_left r a [] room
          (InOrder-cut errs (of_stderr r) (of_stderr s.channel) ts a b e c v.stderr_in_order) v
    Step-Streams {s} (fail_stdout room) r v =
        send_error s.channel s.captured [] s.stderr_left r to_stdout room
          (close_stdout s.channel s.captured s.stdout_left s.stderr_left r v)
    Step-Streams {s} (fail_stderr room) r v =
        send_error s.channel s.captured s.stdout_left [] r to_stderr room
          (close_stderr s.channel s.captured s.stdout_left s.stderr_left r v)
    Step-Streams (finish e p) r v = v
    Step-Streams {s} (receive {stream} {t} {more} l e n) r v =
        take stream t more s.captured s.stdout_left s.stderr_left r (at_channel s r e v)
    Step-Streams {s} (receive_ready {stream} {t} {more} l e y) r v =
        take stream t more s.captured s.stdout_left s.stderr_left r (at_channel s r e v)
    Step-Streams {s} (receive_error {stream} {more} l e) r v =
        pass_over stream more s.captured s.stdout_left s.stderr_left r (at_channel s r e v)
    Step-Streams (receive_exit l p) r v = v
    Step-Streams (cancel l) r v = v
