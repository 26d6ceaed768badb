-- ===== src/Examples/Runs.antt =====
-- Runs of internal/proxy, internal/kubectl, internal/tunnel and internal/preflight.
use dev_connect.Prelude.{
  ℕ, zero, suc, none, some, [], ◌∷◌, ◌++◌, ◌≡◌, refl, true, false, ◌&&◌, if◌then◌else◌, pos,
}
use dev_connect.Text.{Text, codes}
use dev_connect.Text.Numbers.{decimal_int}
use dev_connect.Result.{Result, ok, err, canceled}
use dev_connect.Proxy.{ProxyConfig, build_env_for_os}
use dev_connect.Proxy.Seen.{seen, once}
use dev_connect.Proxy.Build.{sets, seen-build_env_for_os}
use dev_connect.Kubectl.{Command, Output, Runner, PortForwardOptions, port_forward_service_command}
use dev_connect.Kubectl.Flags.{read_flags, no_flags, read_flags-port_forward_service_command}
use dev_connect.Tunnel.{StartOptions, start, further_attempts, is_ready_output}
use dev_connect.Tunnel.Attempts.{Succeeded, Failed, start_ok, start-Failed}
use dev_connect.Preflight.{validate, all_passed}
use dev_connect.Preflight.Checks.{Approved, validate-Approved}

abbrev enabled_proxy : ProxyConfig
enabled_proxy = record {
  enabled = true;
  http_proxy = codes "p";
  https_proxy = [];
  no_proxy = codes "localhost";
}

seen-build_env_for_os_example :
    seen (codes "linux") (build_env_for_os (codes "linux") [] enabled_proxy) (codes "http_proxy")
    ≡ (if true
          && (true
              && sets (codes "linux") (codes "NO_PROXY") (codes "no_proxy") (codes "http_proxy"))
        then some (codes "localhost")
        else if true
            && (false
                && sets
                    (codes "linux")
                    (codes "HTTPS_PROXY")
                    (codes "https_proxy")
                    (codes "http_proxy"))
        then some []
        else if true
            && (true
                && sets
                    (codes "linux")
                    (codes "HTTP_PROXY")
                    (codes "http_proxy")
                    (codes "http_proxy"))
        then some (codes "p")
        else seen (codes "linux") [] (codes "http_proxy"))
unfolding once
seen-build_env_for_os_example =
    seen-build_env_for_os (codes "linux") [] enabled_proxy (codes "http_proxy") refl

abbrev forward : PortForwardOptions
forward = record {
  namespace = codes "n";
  service = codes "s";
  local_port = pos 2222;
  remote_port = pos 22;
  context_name = [];
  kubeconfig = codes "/kube";
}

read_flags-port_forward_service_command_example :
    read_flags no_flags (port_forward_service_command forward).args ≡ record {
      kubeconfig = codes "/kube";
      context_name = [];
      namespace = codes "n";
      rest =
          codes "port-forward"
          ∷ (codes "service/" ++ codes "s")
          ∷ (decimal_int (pos 2222) ++ b':' ∷ decimal_int (pos 22))
          ∷ [];
    }
read_flags-port_forward_service_command_example = read_flags-port_forward_service_command forward

-- A runner that fails as often as its state says.
abbrev flaky_run : Command → ℕ → Result Output × ℕ
flaky_run c zero =
    (ok (record { stdout = codes "Forwarding from x"; stderr = []; exit_code = pos 0 }), zero)
flaky_run c (suc n) = (err canceled, n)

abbrev flaky : Runner ℕ
flaky = record { run = flaky_run; run_until_ready = none; start_until_ready = none }

abbrev start_options : StartOptions
start_options = record { port_forward = forward; reconnect = true }

start_ok_example :
    Succeeded flaky
      (port_forward_service_command forward)
      1
      (further_attempts (pos 3) true)
      2
      (record { ready = is_ready_output (codes "Forwarding from x"); attempts = 3; pid = pos 0 })
      0
unfolding start
start_ok_example = start_ok flaky (pos 3) start_options 2 refl

start-Failed_example :
    Failed flaky (port_forward_service_command forward) 1 5 (suc (further_attempts (pos 3) true)) 1
unfolding start
start-Failed_example = start-Failed flaky (pos 3) start_options 5 {x = canceled} refl

-- A runner that answers in turn: a version, a permission, a port-forward.
abbrev answer : ℕ → Text
answer zero = codes "v1"
answer (suc zero) = codes "yes\n"
answer _ = codes "Forwarding from x"

abbrev willing : Runner ℕ
willing = record {
  run = λ c n. (ok (record { stdout = answer n; stderr = []; exit_code = pos 0 }), suc n);
  run_until_ready = none;
  start_until_ready = none;
}

validate-Approved_example : (all_passed ≡ all_passed) × Approved willing forward 0 3
unfolding validate
validate-Approved_example = validate-Approved willing forward 0 refl
