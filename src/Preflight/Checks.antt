-- ===== src/Preflight/Checks.antt =====
-- internal/preflight/preflight.go: what a success of `Validate` means.
use dev_connect.Prelude.{true, none, ◌≡◌, refl, arith}
use dev_connect.Text.{codes, equal, equal_iff, trim_space}
use dev_connect.Result.{Result, ok, err}
use dev_connect.Kubectl.{
  Output, Runner, PortForwardOptions, port_forward_service_command, version_command,
}
use dev_connect.Tunnel.{is_ready_output}
use dev_connect.Preflight.{
  Passed, all_passed, Outcome, can_forward_command, run_port_forward_probe, judge_probe,
  check_port_forward, judge_rbac, judge_version, validate,
}

judge_probe_passed :
    {S : Type 0} (runner : Runner S) (r : Result Output) {p : Passed}
    → ◌≡◌ {A = Outcome} (judge_probe runner r) (p, none)
    → (out : Output) × (r ≡ ok out) × (is_ready_output out.stdout ≡ true) × (p ≡ all_passed)
unfolding judge_probe
judge_probe_passed runner (err e) h = cc
judge_probe_passed runner (ok out) h = (out, refl, ground arith, ground arith)

judge_rbac_passed :
    {S : Type 0} (runner : Runner S) (o : PortForwardOptions) (r : Result Output) (s : S)
    {p : Passed} {u : S}
    → judge_rbac runner o r s ≡ ((p, none), u)
    → (out : Output) × (r ≡ ok out)
      × (equal (trim_space out.stdout) (codes "yes") ≡ true)
      × (check_port_forward runner o s ≡ ((p, none), u))
unfolding judge_rbac
judge_rbac_passed runner o (err e) s h = cc
judge_rbac_passed runner o (ok out) s h = (out, refl, ground arith, ground arith)

judge_version_passed :
    {S : Type 0} (runner : Runner S) (o : PortForwardOptions) (r : Result Output) (s : S)
    {p : Passed} {u : S}
    → judge_version runner o r s ≡ ((p, none), u)
    → (out : Output) × (r ≡ ok out)
      × (judge_rbac runner o
            (runner.run (can_forward_command o) s).0
            (runner.run (can_forward_command o) s).1
          ≡ ((p, none), u))
unfolding judge_version
judge_version_passed runner o (err e) s h = cc
judge_version_passed runner o (ok out) s h = (out, refl, h)

module _ {S : Type 0} (runner : Runner S) (o : PortForwardOptions) (s : S) where
  -- The runs that a success rests on, one after the other.
  pub record Approved (u : S) : Type 0 where
    pub version : Output
    pub s1 : S
    pub rbac : Output
    pub s2 : S
    pub probe : Output
    pub version_ran : runner.run (version_command o.context_name o.kubeconfig) s ≡ (ok version, s1)
    pub rbac_ran : runner.run (can_forward_command o) s1 ≡ (ok rbac, s2)
    pub allowed : trim_space rbac.stdout ≡ codes "yes"
    pub probe_ran :
        run_port_forward_probe runner (port_forward_service_command o) s2 ≡ (ok probe, u)
    pub ready : is_ready_output probe.stdout ≡ true

  -- `Validate` returns no error only if kubectl has reached the cluster, has answered `yes` to the
  -- question whether ports may be forwarded, and has forwarded the port; then all three checks are
  -- reported as passed.
  pub validate-Approved :
      {p : Passed} {u : S} → validate runner o s ≡ ((p, none), u) → (p ≡ all_passed) × Approved u
  unfolding validate check_port_forward
  validate-Approved {p} {u} h =
      let v = runner.run (version_command o.context_name o.kubeconfig) s in
      let (version, ev, h1) = judge_version_passed runner o v.0 v.1 h in
      let a = runner.run (can_forward_command o) v.1 in
      let (rbac, ea, yes_, h2) = judge_rbac_passed runner o a.0 a.1 h1 in
      let f = run_port_forward_probe runner (port_forward_service_command o) a.1 in
      let (probe, ef, ready, passed) = judge_probe_passed runner f.0 (λ i. (h2 i).0) in
      (
        passed,
        record {
          version = version;
          s1 = v.1;
          rbac = rbac;
          s2 = a.1;
          probe = probe;
          version_ran = λ i. (ev i, v.1);
          rbac_ran = λ i. (ea i, a.1);
          allowed = (equal_iff (trim_space rbac.stdout) (codes "yes")).0 yes_;
          probe_ran = λ i. (ef i, (h2 i).1);
          ready = ready;
        },
      )
