-- ===== src/Cli.antt =====
-- cmd/dev-connect/main.go: the options of the program, and what it makes of them and of its
-- environment before it acts.
pub mod Environment
pub mod Sessions
pub mod Status
pub mod Listing
pub mod Announce
pub mod Commands
pub mod Execute
pub mod Arguments
pub mod Location
pub mod Host
pub mod Supervisor
pub mod Connecting
use dev_connect.Prelude.{
  ℕ, Bool, true, false, not, ◌&&◌, ◌||◌, Option, none, some, List, [], ◌∷◌, ◌++◌, if◌then◌else◌,
  is_nil,
}
use dev_connect.Text.{Text, codes, equal}
use dev_connect.Text.Paths.{join_path}
use dev_connect.Map.{Map, lookup}
use dev_connect.Result.{
  Error, Result, ok, err, fail_if, ◌>>◌, ◌>>=◌, invalid_output, invalid_log_format,
  invalid_log_level, unknown_cluster, unknown_context, context_required,
  context_refers_to_unknown_cluster, session_dir_required,
}
use dev_connect.Config.{Config, Cluster, Context}

pub record CliOptions : Type 0 where
  pub config_path : Text
  pub context_name : Text
  pub cluster_name : Text
  pub gateway_name : Text
  pub log_level : Text
  pub log_format : Text
  pub output : Text
  pub no_code : Bool
  pub no_reconnect : Bool
  pub kubectl_path : Text
  pub timeout : ℕ

unfoldable pub one_of : Text → List Text → Bool
unfolding equal
one_of value [] = false
one_of value (candidate ∷ allowed) = equal value candidate || one_of value allowed

unfoldable pub validate_options : CliOptions → Result (Unit {0})
unfolding one_of
validate_options o = do
  fail_if (not (one_of o.output (codes "text" ∷ codes "json" ∷ []))) (invalid_output o.output)
  fail_if (not (one_of o.log_format (codes "text" ∷ codes "json" ∷ [])))
      (invalid_log_format o.log_format)
  fail_if
      (not (one_of o.log_level (codes "error" ∷ codes "warn" ∷ codes "info" ∷ codes "debug" ∷ [])))
      (invalid_log_level o.log_level)

abbrev pub found {ℓ} : {A : Type ℓ} → Error → Option A → Result A
found e none = err e
found e (some a) = ok a

-- The cluster without any settings.
abbrev pub no_cluster : Cluster
no_cluster = record {
  kubeconfig = [];
  kubernetes_context = [];
  kubectl_path = [];
  proxy = record { enabled = false; http_proxy = []; https_proxy = []; no_proxy = [] };
}

unfoldable pub cluster_of_context : Config → Text → Result Cluster
unfolding lookup
cluster_of_context c name =
    found (unknown_context name) (lookup name c.contexts) >>= λ (x : Context).
    found (context_refers_to_unknown_cluster name x.cluster) (lookup x.cluster c.clusters)

-- Without a name the only context is taken.
abbrev pub cluster_of_only : Config → Map Context → Result Cluster
cluster_of_only c [] = ok no_cluster
cluster_of_only c ((name, _) ∷ []) = cluster_of_context c name
cluster_of_only c (_ ∷ _ ∷ _) = err context_required

unfoldable pub selected_cluster : Config → CliOptions → Result Cluster
unfolding cluster_of_context
selected_cluster c o =
    if not (is_nil o.cluster_name)
    then found (unknown_cluster o.cluster_name) (lookup o.cluster_name c.clusters)
    else if is_nil o.context_name
    then cluster_of_only c c.contexts
    else cluster_of_context c o.context_name

-- `DEV_CONNECT_SESSION_DIR`, or a directory beside the configuration.
unfoldable pub session_dir : Text → Result Text → Result Text
unfolding join_path
session_dir from_env default_dir =
    if not (is_nil from_env)
    then ok from_env
    else default_dir >>= λ dir. ok (join_path dir (codes "session"))

-- `DEV_CONNECT_SSH_DIR`, or a directory in that of the session.
unfoldable pub ssh_dir : Text → Text → Result Text
unfolding join_path
ssh_dir from_env dir =
    if not (is_nil from_env)
    then ok from_env
    else if is_nil dir
    then err session_dir_required
    else ok (join_path dir (codes "ssh"))

abbrev pub only_name : Map Context → Text
only_name ((name, _) ∷ []) = name
only_name _ = []

unfoldable pub default_context_name : Config → Text → Text
default_context_name c selected = if not (is_nil selected) then selected else only_name c.contexts

-- `cfg.Contexts[contextName].Gateway`: empty for a missing context.
abbrev pub gateway_of : Option Context → Text
gateway_of none = []
gateway_of (some x) = x.gateway

unfoldable pub default_gateway_name : Config → Text → Text → Text
unfolding default_context_name lookup
default_gateway_name c selected_context selected_gateway =
    if not (is_nil selected_gateway)
    then selected_gateway
    else if is_nil (default_context_name c selected_context)
    then []
    else gateway_of (lookup (default_context_name c selected_context) c.contexts)
