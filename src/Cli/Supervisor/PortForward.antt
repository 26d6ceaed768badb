-- ===== src/Cli/Supervisor/PortForward.antt =====
-- cmd/dev-connect/main.go: one port-forward of the supervisor, and the file that it writes once the
-- forwarding is announced.
use dev_connect.Prelude.{
  Bool, true, false, not, ◌||◌, Option, none, some, List, [], ◌∷◌, ◌++◌, ◌≡◌, refl, sym, ◌∙◌,
  if◌then◌else◌, Bool-cases, append_assoc, append-nil, inl, inr, ◌⊎◌,
}
use dev_connect.Text.{Text, codes}
use dev_connect.Result.{Error}
use dev_connect.World.{World, write_file}
use dev_connect.Proxy.{Env}
use dev_connect.Kubectl.{Command}
use dev_connect.Kubectl.Process.{Invocation, StartFailure, start_error}
use dev_connect.Kubectl.Process.Exit.{WaitError, cause_of}
use dev_connect.Tunnel.{is_ready_output}

-- The override comes last, and the last one counts for a process.
unfoldable pub merge_command_env : Env → Env → Env
merge_command_env base overrides = base ++ overrides

-- The machine, what was printed, and whether `readyOnce` has run.
pub record Scan : Type 0 where
  pub world : World
  pub printed : List Text
  pub is_announced : Bool

abbrev pub written : World → Option World → World
written w none = w
written w (some w') = w'

-- A line of either pipe. A failure to write the file is ignored.
unfoldable pub scan_line : Text → Text → Scan → Scan
unfolding is_ready_output write_file
scan_line ready_file line s =
    let now = record s { printed = s.printed ++ line ∷ [] } in
    if not (is_ready_output line) then now else if s.is_announced then now else record now {
      world = written s.world (write_file s.world ready_file (codes "ready" ++ b'\n' ∷ []) 0o600);
      is_announced = true;
    }

-- The two scanners, over the lines in the order in which they are read.
unfoldable pub scan_supervisor_output : Text → List Text → Scan → Scan
unfolding scan_line
scan_supervisor_output ready_file [] s = s
scan_supervisor_output ready_file (l ∷ lines) s =
    scan_supervisor_output ready_file lines (scan_line ready_file l s)

-- A line announces the forwarding.
unfoldable pub any_ready : List Text → Bool
unfolding is_ready_output
any_ready [] = false
any_ready (l ∷ lines) = is_ready_output l || any_ready lines

-- What the scanners leave, without their loop.
abbrev pub scanned : Text → List Text → Scan → Scan
scanned ready_file lines s = record {
  world =
      if s.is_announced || not (any_ready lines)
      then s.world
      else written s.world (write_file s.world ready_file (codes "ready" ++ b'\n' ∷ []) 0o600);
  printed = s.printed ++ lines;
  is_announced = s.is_announced || any_ready lines;
}

or_false : (b : Bool) → b ≡ b || false
or_false true = refl
or_false false = refl

if_true : (b : Bool) (x y : World) → x ≡ (if b || true then x else y)
if_true true x y = refl
if_true false x y = refl

scan-cons :
    (ready_file : Text) (l : Text) (lines : List Text) (s : Scan)
    → scanned ready_file lines (scan_line ready_file l s) ≡ scanned ready_file (l ∷ lines) s
unfolding scan_line any_ready
scan-cons ready_file l lines s =
    let printed = append_assoc s.printed (l ∷ []) lines in
    elim (Bool-cases (is_ready_output l)) [
      | inr e ↦ rw (e) (λ i. record (scanned ready_file lines s) { printed = printed i })
      | inl e ↦ elim (Bool-cases s.is_announced) [
        | inl a ↦
            rw (e, a) (λ i. record { world = s.world; printed = printed i; is_announced = true })
        | inr a ↦
            rw (e, a)
              (λ i. record {
                world =
                    written s.world
                      (write_file s.world ready_file (codes "ready" ++ b'\n' ∷ []) 0o600);
                printed = printed i;
                is_announced = true;
              })
      ]
    ]

-- Both pipes are printed line by line, and the ready file is written once if a line announces the
-- forwarding, and never otherwise.
pub scan_supervisor_output-scanned :
    (ready_file : Text) (lines : List Text) (s : Scan)
    → scan_supervisor_output ready_file lines s ≡ scanned ready_file lines s
unfolding scan_supervisor_output any_ready
scan_supervisor_output-scanned ready_file [] s = λ i. record {
  world =
      if_true s.is_announced s.world
        (written s.world (write_file s.world ready_file (codes "ready" ++ b'\n' ∷ []) 0o600)) i;
  printed = sym (append-nil s.printed) i;
  is_announced = or_false s.is_announced i;
}
scan_supervisor_output-scanned ready_file (l ∷ lines) s =
    scan_supervisor_output-scanned ready_file lines (scan_line ready_file l s)
    ∙ scan-cons ready_file l lines s

-- A process that was started: the lines that are read, and how it ends.
pub record Forward : Type 0 where
  pub lines : List Text
  pub error : Option WaitError

-- `start` is given the command as the system takes it; the lines are read to their end before the
-- function returns.
unfoldable pub run_supervised_port_forward :
    (Invocation → StartFailure ⊎ Forward)
    → Text
    → Env
    → Command
    → Text
    → World
    → Option Error × Scan
unfolding merge_command_env scan_supervisor_output
run_supervised_port_forward start kubectl env command ready_file w =
    let before : Scan = record { world = w; printed = []; is_announced = false } in
    elim (start
      (record { path = kubectl; args = command.args; env = merge_command_env env command.env })) [
        | inl f ↦ (some (start_error f), before)
        | inr p ↦ (
          elim p.error [ none ↦ none | some e ↦ some (cause_of e) ],
          scan_supervisor_output ready_file p.lines before,
        )
      ]
