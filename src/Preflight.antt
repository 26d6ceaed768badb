-- ===== src/Preflight.antt =====
-- internal/preflight/preflight.go: the checks before a tunnel is started.
pub mod Checks
use dev_connect.Prelude.{Bool, true, false, not, Option, none, some, ℤ, if◌then◌else◌}
use dev_connect.Text.{Text, codes, equal, trim_space}
use dev_connect.Result.{
  Error, Result, ok, err, permission_denied, port_forward_not_ready, connectivity_failed,
  rbac_failed, functional_failed,
}
use dev_connect.Kubectl.{
  Command, Output, Runner, PortForwardOptions, port_forward_service_command, auth_can_i_command,
  version_command,
}
use dev_connect.Tunnel.{is_ready_output}

-- The checks that were passed.
pub record Passed : Type 0 where
  pub connectivity_ok : Bool
  pub rbac_ok : Bool
  pub functional_ok : Bool

abbrev pub nothing_passed : Passed
nothing_passed = record { connectivity_ok = false; rbac_ok = false; functional_ok = false }

abbrev pub connected : Passed
connected = record { connectivity_ok = true; rbac_ok = false; functional_ok = false }

abbrev pub permitted : Passed
permitted = record { connectivity_ok = true; rbac_ok = true; functional_ok = false }

abbrev pub all_passed : Passed
all_passed = record { connectivity_ok = true; rbac_ok = true; functional_ok = true }

-- A nil error, or one.
abbrev pub Outcome : Type 0
Outcome = Passed × Option Error

unfoldable pub can_forward_command : PortForwardOptions → Command
unfolding auth_can_i_command
can_forward_command o = auth_can_i_command (record {
  namespace = o.namespace;
  verb = codes "create";
  resource = codes "pods/portforward";
  context_name = o.context_name;
  kubeconfig = o.kubeconfig;
})

module _ {S : Type 0} (runner : Runner S) where
  unfoldable pub run_port_forward_probe : Command → S → Result Output × S
  unfolding is_ready_output
  run_port_forward_probe command s = elim runner.run_until_ready [
    | some run_until ↦ run_until command is_ready_output s
    | none ↦ runner.run command s
  ]

  -- The last check, on what the probe gave.
  unfoldable pub judge_probe : Result Output → Outcome
  judge_probe (err e) = (permitted, some (functional_failed e))
  judge_probe (ok o) =
      if not (is_ready_output o.stdout)
      then (permitted, some port_forward_not_ready)
      else (all_passed, none)

  unfoldable pub check_port_forward : PortForwardOptions → S → Outcome × S
  unfolding run_port_forward_probe judge_probe port_forward_service_command
  check_port_forward o s =
      let r = run_port_forward_probe (port_forward_service_command o) s in (judge_probe r.0, r.1)

  unfoldable pub judge_rbac : PortForwardOptions → Result Output → S → Outcome × S
  unfolding check_port_forward equal trim_space
  judge_rbac o (err e) s = ((connected, some (rbac_failed e)), s)
  judge_rbac o (ok rbac) s =
      if not (equal (trim_space rbac.stdout) (codes "yes"))
      then ((connected, some permission_denied), s)
      else check_port_forward o s

  unfoldable pub judge_version : PortForwardOptions → Result Output → S → Outcome × S
  unfolding judge_rbac can_forward_command
  judge_version o (err e) s = ((nothing_passed, some (connectivity_failed e)), s)
  judge_version o (ok _) s = let r = runner.run (can_forward_command o) s in judge_rbac o r.0 r.1

  unfoldable pub validate : PortForwardOptions → S → Outcome × S
  unfolding judge_version version_command
  validate o s =
      let r = runner.run (version_command o.context_name o.kubeconfig) s in judge_version o r.0 r.1
