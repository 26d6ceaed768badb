-- ===== src/Kubectl.antt =====
-- internal/kubectl/command.go: the arguments of the kubectl commands, and what a run gives back.
pub mod Flags
pub mod MergeEnv
pub mod Resolve
pub mod Process
pub mod Fake
use dev_connect.Prelude.{ℕ, Bool, Option, List, [], ◌∷◌, ◌++◌, ℤ, if◌then◌else◌, is_nil}
use dev_connect.Text.{Text, codes}
use dev_connect.Text.Numbers.{decimal_int}
use dev_connect.Result.{Error, Result}

pub record Command : Type 0 where
  pub args : List Text
  pub env : List Text

-- The completed output of a run.
pub record Output : Type 0 where
  pub stdout : Text
  pub stderr : Text
  pub exit_code : ℤ

pub record StartedProcess : Type 0 where
  pub pid : ℤ
  pub stdout : Text
  pub stderr : Text

-- The three interfaces of a runner, over whatever state the outside world has. The two that not
-- every runner implements are optional.
pub record Runner (S : Type 0) : Type 0 where
  pub run : Command → S → Result Output × S
  pub run_until_ready : Option (Command → (Text → Bool) → S → Result Output × S)
  pub start_until_ready : Option (Command → (Text → Bool) → S → Result StartedProcess × S)

pub record PortForwardOptions : Type 0 where
  pub namespace : Text
  pub service : Text
  pub local_port : ℤ
  pub remote_port : ℤ
  pub context_name : Text
  pub kubeconfig : Text

abbrev pub flag : Text → Text → List Text
flag name value = if is_nil value then [] else name ∷ value ∷ []

unfoldable pub base_args : Text → Text → Text → List Text
base_args kubeconfig context_name namespace =
    flag (codes "--kubeconfig") kubeconfig
    ++ (flag (codes "--context") context_name ++ flag (codes "-n") namespace)

unfoldable pub port_forward_service_command : PortForwardOptions → Command
unfolding base_args
port_forward_service_command o = record {
  args =
      base_args o.kubeconfig o.context_name o.namespace
      ++ codes "port-forward"
        ∷ (codes "service/" ++ o.service)
        ∷ (decimal_int o.local_port ++ b':' ∷ decimal_int o.remote_port)
        ∷ [];
  env = [];
}

pub record AuthCanIOptions : Type 0 where
  pub namespace : Text
  pub verb : Text
  pub resource : Text
  pub context_name : Text
  pub kubeconfig : Text

unfoldable pub auth_can_i_command : AuthCanIOptions → Command
unfolding base_args
auth_can_i_command o = record {
  args =
      base_args o.kubeconfig o.context_name o.namespace
      ++ codes "auth" ∷ codes "can-i" ∷ o.verb ∷ o.resource ∷ [];
  env = [];
}

unfoldable pub version_command : Text → Text → Command
unfolding base_args
version_command context_name kubeconfig = record {
  args = base_args kubeconfig context_name [] ++ codes "version" ∷ [];
  env = [];
}
