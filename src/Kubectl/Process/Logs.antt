-- ===== src/Kubectl/Process/Logs.antt =====
-- internal/kubectl/runner.go: the loop of `StartUntilReady`, over the files that the process writes.
use dev_connect.Prelude.{
  Bool, true, false, ◌||◌, Option, none, some, List, [], ◌∷◌, ℤ, ◌≡◌, if◌then◌else◌, Bool-cases,
  inl, inr, arith, refl, sym, ap, subst, ◌⊎◌,
}
use dev_connect.Text.{Text, split}
use dev_connect.Result.{
  Error, Result, ok, err, ok-injective, start_until_ready_failed, exited_before_readiness, canceled,
}
use dev_connect.Kubectl.{StartedProcess}
use dev_connect.Kubectl.Process.Exit.{WaitError, exit_failure, output_of}

-- What the loop sees, with the contents of the two files at that time; a file that cannot be read
-- is an empty one. The loop ends with the end of the process or of the context.
pub data Polls : Type 0 where
  tick : Text → Text → Polls → Polls
  exited : Text → Text → Option WaitError → Polls
  done : Polls

-- The loop of `readyOutput`.
unfoldable pub any_ready : (Text → Bool) → List Text → Bool
any_ready ready [] = false
any_ready ready (t ∷ ts) = ready t || any_ready ready ts

unfoldable pub ready_output : Text → (Text → Bool) → Bool
unfolding any_ready split
ready_output output ready = any_ready ready (split output b'\n')

abbrev pub is_ready : (Text → Bool) → Text → Text → Bool
is_ready ready stdout stderr = ready_output stdout ready || ready_output stderr ready

-- What the call returns, and whether it has stopped the process.
pub record Followed : Type 0 where
  pub result : Result StartedProcess
  pub is_stopped : Bool

abbrev pub failure_or : Error → Option Error → Error
failure_or e none = e
failure_or e (some f) = f

unfoldable pub until_logged : (Text → Bool) → ℤ → Polls → Followed
unfolding ready_output exit_failure output_of
until_logged ready pid (tick stdout stderr more) =
    let rest = until_logged ready pid more in
    if is_ready ready stdout stderr
    then record {
      result = ok (record { pid = pid; stdout = stdout; stderr = stderr });
      is_stopped = false;
    }
    else rest
until_logged ready pid (exited stdout stderr e) =
    if is_ready ready stdout stderr
    then record {
      result = ok (record { pid = pid; stdout = stdout; stderr = stderr });
      is_stopped = false;
    }
    else record {
      result = err (
          failure_or exited_before_readiness
            (exit_failure start_until_ready_failed (output_of stdout stderr e) e));
      is_stopped = false;
    }
until_logged ready pid done = record { result = err canceled; is_stopped = true }

-- The loop has seen the two files with these contents.
abbrev pub Observed : Polls → Text → Text → Type 0
Observed (tick stdout stderr more) o e = ((stdout ≡ o) × (stderr ≡ e)) ⊎ Observed more o e
Observed (exited stdout stderr x) o e = (stdout ≡ o) × (stderr ≡ e)
Observed done o e = ⊥

-- A process that was started has its own number, and the loop has seen its two files, one with a
-- line that shows that it is ready; the call has not stopped it.
pub until_logged_ok :
    (ready : Text → Bool) (pid : ℤ) (x : Polls) {p : StartedProcess}
    → (until_logged ready pid x).result ≡ ok p
    → (p.pid ≡ pid)
      × Observed x p.stdout p.stderr
      × (is_ready ready p.stdout p.stderr ≡ true)
      × ((until_logged ready pid x).is_stopped ≡ false)
unfolding until_logged
until_logged_ok ready pid (tick stdout stderr more) {p} h =
    elim (Bool-cases (is_ready ready stdout stderr)) [
      | inl e ↦
          let same = ok-injective (rw (e, until_logged) at h) in
          (
            sym (ap (λ (q : StartedProcess). q.pid) same),
            inl (
              ap (λ (q : StartedProcess). q.stdout) same,
              ap (λ (q : StartedProcess). q.stderr) same,
            ),
            subst (λ (q : StartedProcess). is_ready ready q.stdout q.stderr ≡ true) same e,
            rw e refl,
          )
      | inr e ↦
          let (number, seen, shown, left) =
            until_logged_ok ready pid more (rw (e, until_logged) at h) in
          (number, inr seen, shown, rw e left)
    ]
until_logged_ok ready pid (exited stdout stderr e) {p} h =
    elim (Bool-cases (is_ready ready stdout stderr)) [
      | inl y ↦
          let same = ok-injective (rw (y, until_logged) at h) in
          (
            sym (ap (λ (q : StartedProcess). q.pid) same),
            (
              ap (λ (q : StartedProcess). q.stdout) same,
              ap (λ (q : StartedProcess). q.stderr) same,
            ),
            subst (λ (q : StartedProcess). is_ready ready q.stdout q.stderr ≡ true) same y,
            rw y refl,
          )
      | inr n ↦ ground arith
    ]
until_logged_ok ready pid done h = cc
