-- ===== src/Session/Process.antt =====
-- internal/session: `IsStale`, and internal/session/process_unix.go.
use dev_connect.Prelude.{
  ℕ, zero, suc, Bool, true, false, not, ◌&&◌, Option, none, some, ◌≡◌, ap, ◌∙◌, subst, Option-cases,
  inl, inr, arith, ℤ, pos, negsuc, is_positive, if◌then◌else◌, ◌==◌,
}
use dev_connect.Text.{Text}
use dev_connect.Text.Numbers.{decimal_int}
use dev_connect.Result.{ok, terminate_failed}
use dev_connect.World.{World, kill}
use dev_connect.World.Steps.{M, act, pure}
use dev_connect.World.Frame.{act-eq-ok}
use dev_connect.Session.{State}

-- The signal that only asks whether there is a process is never refused for another reason here:
-- a process of another owner counts as running.
unfoldable pub process_exists : World → ℤ → Bool
process_exists w (pos zero) = false
process_exists w (pos (suc n)) = w.alive (suc n)
process_exists w (negsuc n) = false

unfoldable pub is_stale : State → (ℤ → Bool) → Bool
is_stale s exists =
    if not (is_positive s.port_forward_pid) then false else not (exists s.port_forward_pid)

-- The group first, then the process alone.
unfoldable pub kill_group_or_process : World → ℕ → Option World
unfolding kill
kill_group_or_process w n = elim (kill w (decimal_int (negsuc n)) (suc n)) [
  | some w' ↦ some w'
  | none ↦ kill w (decimal_int (pos (suc n))) (suc n)
]

unfoldable pub terminate_process : ℤ → M (Unit {0})
unfolding kill_group_or_process
terminate_process (pos zero) = pure tt
terminate_process (pos (suc n)) =
    act (λ w. kill_group_or_process w n) (terminate_failed (pos (suc n)))
terminate_process (negsuc n) = pure tt

kill-eq-some :
    (w : World) (name : Text) (pid : ℕ) {w' : World}
    → kill w name pid ≡ some w'
    → w' ≡ record w { alive = λ q. if q == pid then false else w.alive q }
unfolding kill
kill-eq-some w name pid h = ground arith

kill_group_or_process-eq-some :
    (w : World) (n : ℕ) {w' : World}
    → kill_group_or_process w n ≡ some w'
    → w' ≡ record w { alive = λ q. if q == suc n then false else w.alive q }
unfolding kill_group_or_process
kill_group_or_process-eq-some w n {w'} h =
    elim (Option-cases (kill w (decimal_int (negsuc n)) (suc n))) [
      | inl e ↦
          kill-eq-some w (decimal_int (pos (suc n))) (suc n) (rw (e, kill_group_or_process) at h)
      | inr (u, e) ↦
          let same : some u ≡ some w' = rw (e, kill_group_or_process) at h in
          kill-eq-some w (decimal_int (negsuc n)) (suc n) (e ∙ same)
    ]

terminate_process-eq-ok :
    (n : ℕ) (w : World) {t : Unit {0}} {w' : World}
    → terminate_process (pos (suc n)) w ≡ (ok t, w')
    → w' ≡ record w { alive = λ q. if q == suc n then false else w.alive q }
unfolding terminate_process
terminate_process-eq-ok n w h =
    kill_group_or_process-eq-some w n
      (act-eq-ok (λ x. kill_group_or_process x n) (terminate_failed (pos (suc n))) w h)

-- A process that was terminated successfully is gone, so a session that names it is stale; the
-- files and all other processes are as they were.
pub terminate_process-is_stale :
    (s : State) (n : ℕ) (w : World) (q : ℕ) {t : Unit {0}} {w' : World}
    → s.port_forward_pid ≡ pos (suc n)
    → terminate_process s.port_forward_pid w ≡ (ok t, w')
    → (is_stale s (process_exists w') ≡ true)
      × (w'.file ≡ w.file)
      × (w'.alive q ≡ (if q == suc n then false else w.alive q))
unfolding is_stale process_exists
terminate_process-is_stale s n w q {t} {w'} e h =
    let ew = terminate_process-eq-ok n w (subst (λ p. terminate_process p w ≡ (ok t, w')) e h) in
    let gone : w'.alive (suc n) ≡ false = ap (λ (x : World). x.alive (suc n)) ew ∙ ground arith in
    (rw e (rw gone), ap (λ (x : World). x.file) ew, ap (λ (x : World). x.alive q) ew)

-- A session without a process, such as one that is still being set up, is never stale; with one, it
-- is stale exactly when the process is gone.
pub is_stale_iff :
    (s : State) (w : World)
    → is_stale s (process_exists w)
      ≡ (is_positive s.port_forward_pid && not (process_exists w s.port_forward_pid))
unfolding is_stale
is_stale_iff s w = ground arith
