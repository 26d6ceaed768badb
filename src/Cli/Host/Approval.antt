-- ===== src/Cli/Host/Approval.antt =====
-- cmd/dev-connect/main.go: what the preflight of a command has made sure of.
use dev_connect.Prelude.{none, some, ◌≡◌, refl}
use dev_connect.Text.{Text}
use dev_connect.Result.{Result, ok, err}
use dev_connect.Config.{Cluster}
use dev_connect.Connect.{Prepared}
use dev_connect.Kubectl.Process.{Exec, executable_runner}
use dev_connect.Kubectl.Resolve.Found.{IsExecutable, resolve_local_executable-IsExecutable}
use dev_connect.Preflight.{Passed, Outcome, validate}
use dev_connect.Preflight.Checks.{Approved, validate-Approved}
use dev_connect.Cli.{CliOptions}
use dev_connect.Cli.Host.{
  Host, kubectl_path, kubectl_runner, port_forward_options, run_preflight, error_of, preflight_with,
  resolve_options,
}

module _ {S : Type 0} (exec : Exec S) (h : Host) (o : CliOptions) where
  -- The kubectl that was asked, and that it has approved.
  pub record Passes (cluster : Cluster) (p : Prepared) (s u : S) : Type 0 where
    pub path : Text
    pub found : kubectl_path h o cluster ≡ ok path
    pub executable : IsExecutable h.stat h.goos path
    pub approved :
        Approved
          (executable_runner exec (kubectl_runner h cluster path))
          (port_forward_options cluster p)
          s
          u

  error_of-eq-ok :
      (x : Outcome × S) {t : Unit {0}} {u : S}
      → ◌≡◌ {A = Result (Unit {0}) × S} (error_of exec h o x) (ok t, u)
      → (q : Passed) × (x ≡ ((q, none), u))
  error_of-eq-ok ((q, none), s) e = (q, λ i. ((q, none), (e i).1))
  error_of-eq-ok ((q, some x), s) e = cc

  preflight_with-Passes :
      (cluster : Cluster) (p : Prepared) (r : Result Text) (s : S) {t : Unit {0}} {u : S}
      → kubectl_path h o cluster ≡ r
      → ◌≡◌ {A = Result (Unit {0}) × S} (preflight_with exec h o cluster p r s) (ok t, u)
      → Passes cluster p s u
  unfolding kubectl_path
  preflight_with-Passes cluster p (err x) s found e = cc
  preflight_with-Passes cluster p (ok path) s found e =
      let runner = executable_runner exec (kubectl_runner h cluster path) in
      let (_, checked) = error_of-eq-ok (validate runner (port_forward_options cluster p) s) e in
      let (_, approved) = validate-Approved runner (port_forward_options cluster p) s checked in
      record {
        path = path;
        found = found;
        executable =
            resolve_local_executable-IsExecutable h.stat (resolve_options h o cluster) found;
        approved = approved;
      }

  -- The preflight of a command succeeds only if a kubectl was found that is a file and can be
  -- executed, and that kubectl, run as a process with the cluster's environment, has reached the
  -- cluster, has answered that ports may be forwarded, and has forwarded the port of the session.
  pub run_preflight-Passes :
      (cluster : Cluster) (p : Prepared) (s : S) {t : Unit {0}} {u : S}
      → run_preflight exec h o cluster p s ≡ (ok t, u)
      → Passes cluster p s u
  unfolding run_preflight
  run_preflight-Passes cluster p s e =
      preflight_with-Passes cluster p (kubectl_path h o cluster) s refl e
