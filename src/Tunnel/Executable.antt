-- ===== src/Tunnel/Executable.antt =====
-- internal/tunnel/tunnel.go over the runner of internal/kubectl/runner.go: a started tunnel is a
-- kubectl that has said that it forwards.
use dev_connect.Prelude.{
  ℕ, ◌+◌, subst, true, false, ℤ, ◌≡◌, refl, sym, ap, ◌∙◌, if◌then◌else◌, is_nil, Bool-cases, inl,
  inr, ◌⊎◌,
}
use dev_connect.Result.{Result, ok, err, Result-cases, ok-injective, kubectl_path_required}
use dev_connect.Kubectl.{Command, StartedProcess, port_forward_service_command}
use dev_connect.Kubectl.Process.{
  Exec, ExecutableRunner, Running, StartFailure, invocation, follow_logs, start_until_ready,
  executable_runner,
}
use dev_connect.Kubectl.Process.Logs.{Polls, Observed, is_ready, until_logged, until_logged_ok}
use dev_connect.Tunnel.{StartOptions, Started, attempt, start, is_ready_output}
use dev_connect.Tunnel.Attempts.{start_ok}

module _ {S : Type 0} (exec : Exec S) (runner : ExecutableRunner) (command : Command) where
  -- A kubectl that the system has started with the command in one world, which leads to the other:
  -- the call has not stopped it. At one time the loop has seen these contents of its two outputs, and
  -- a line there shows that the port is forwarded.
  pub record Forwarding (s : S) (pid : ℤ) (u : S) : Type 0 where
    pub process : Running Polls
    pub output : StartedProcess
    pub named : is_nil runner.path ≡ false
    pub started : exec.start_logged (invocation exec runner command) s ≡ (inr process, u)
    pub numbered : pid ≡ process.pid
    pub observed : Observed process.events output.stdout output.stderr
    pub forwards : is_ready is_ready_output output.stdout output.stderr ≡ true

  follow_logs-Forwarding :
      (s : S) (r : StartFailure ⊎ Running Polls) (v : S) {p : StartedProcess} {u : S}
      → is_nil runner.path ≡ false
      → exec.start_logged (invocation exec runner command) s ≡ (r, v)
      → follow_logs exec runner is_ready_output r v ≡ (ok p, u)
      → Forwarding s p.pid u
  unfolding follow_logs
  follow_logs-Forwarding s (inl f) v named e h = cc
  follow_logs-Forwarding s (inr x) v {p} {u} named e h =
      let (pid, seen, shown, running) =
        until_logged_ok is_ready_output x.pid x.events (λ i. (h i).0) in
      let moved : (if (until_logged is_ready_output x.pid x.events).is_stopped
            then exec.kill x.pid v
            else v)
          ≡ u =
        λ i. (h i).1 in
      let same : v ≡ u = rw running at moved in
      record {
        process = x;
        output = p;
        named = named;
        started = e ∙ (λ i. (inr x, same i));
        numbered = pid;
        observed = seen;
        forwards = shown;
      }

  start_until_ready-Forwarding :
      (s : S) {p : StartedProcess} {u : S}
      → start_until_ready exec runner command is_ready_output s ≡ (ok p, u)
      → Forwarding s p.pid u
  unfolding start_until_ready
  start_until_ready-Forwarding s {p} {u} h = elim (Bool-cases (is_nil runner.path)) [
    | inl e ↦
        let no : ◌≡◌ {A = Result StartedProcess × S} (err kubectl_path_required, s) (ok p, u) =
          rw (e, start_until_ready) at h in
        cc
    | inr e ↦ follow_logs-Forwarding s _ _ e refl (rw (e, start_until_ready) at h)
  ]

  attempt-Forwarding :
      (n : ℕ) (s : S) {r : Started} {u : S}
      → attempt (executable_runner exec runner) command n s ≡ (ok r, u)
      → (r.ready ≡ true) × Forwarding s r.pid u
  unfolding attempt executable_runner
  attempt-Forwarding n s {r} {u} h =
      elim (Result-cases (start_until_ready exec runner command is_ready_output s).0) [
        | inl (p, e) ↦
            let v = (start_until_ready exec runner command is_ready_output s).1 in
            let same : ◌≡◌ {A = Result Started × S}
                (ok (record { ready = true; attempts = n; pid = p.pid }), v) (ok r, u) =
              rw e at h in
            let forwarding : Forwarding s p.pid u =
              start_until_ready-Forwarding s (λ i. (e i, (same i).1)) in
            let result : record { ready = true; attempts = n; pid = p.pid } ≡ r =
              ok-injective (λ i. (same i).0) in
            (
              sym (ap (λ (x : Started). x.ready) result),
              subst (λ k. Forwarding s k u) (ap (λ (x : Started). x.pid) result) forwarding,
            )
        | inr (x, e) ↦
            let v = (start_until_ready exec runner command is_ready_output s).1 in
            let no : ◌≡◌ {A = Result Started × S} (err x, v) (ok r, u) = rw e at h in cc
      ]

module _ {S : Type 0} (exec : Exec S) (runner : ExecutableRunner) (max : ℤ) (o : StartOptions) where
  -- A tunnel that was started with the real kubectl has forwarded: after some failures the system has
  -- started kubectl with the arguments of the port-forward, under the number that is reported; the
  -- loop has then seen the contents of its two outputs, one with a line that says so; and the call
  -- has not stopped it.
  pub start-Forwarding :
      (s : S) {r : Started} {u : S}
      → start (executable_runner exec runner) max o s ≡ (ok r, u)
      → (r.ready ≡ true)
        × (w : S) × Forwarding exec runner (port_forward_service_command o.port_forward) w r.pid u
  start-Forwarding s {r} {u} h =
      let f = start_ok (executable_runner exec runner) max o s h in
      let (is_ready_, forwarding) =
        attempt-Forwarding exec runner (port_forward_service_command o.port_forward) (1 + f.before)
          f.world f.success in
      (is_ready_, f.world, forwarding)
