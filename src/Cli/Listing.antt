-- ===== src/Cli/Listing.antt =====
-- cmd/dev-connect/main.go: what the command `list` answers.
pub mod Order
pub mod Abstract
use dev_connect.Prelude.{
  ℕ, Bool, not, true, false, Option, none, some, List, [], ◌∷◌, ◌++◌, map, ◌≡◌, refl, sym, ap, ◌∙◌,
  if◌then◌else◌, is_nil, ℤ, pos, is_positive, length, All,
}
use dev_connect.Text.{Text, codes, equal}
use dev_connect.Text.Numbers.{decimal}
use dev_connect.Map.{Map, lookup}
use dev_connect.Map.Order.{
  nil, cons, swap, trans, sort_strings, keys, Reordered, lookup-Reordered, sort_strings-Reordered,
  IsSorted, sort_strings-IsSorted,
}
use dev_connect.Result.{Result, ok, err, ◌>>=◌}
use dev_connect.Config
use dev_connect.Config.{Config, Context}
use dev_connect.Output.{Response, Target, Cluster, Gateway, empty_response}
use dev_connect.Logging.{Logger, Level, Attr, new, log_attrs}
use dev_connect.Cli.{
  CliOptions, default_context_name, default_gateway_name, no_cluster, only_name, gateway_of,
}

-- `cfg.Targets[name]`, the zero value for a missing name.
abbrev pub at {ℓ} : {A : Type ℓ} → A → Option A → A
at zero none = zero
at zero (some a) = a

-- The loop over the names.
unfoldable pub summaries {ℓ κ} :
    {A : Type ℓ} {B : Type κ} → A → (Text → A → B) → Map A → List Text → List B
unfolding lookup
summaries zero summary m [] = []
summaries zero summary m (name ∷ names) =
    let rest = summaries zero summary m names in summary name (at zero (lookup name m)) ∷ rest

abbrev pub no_target : Config.Target
no_target = record { gateway = []; user = []; identity_file = []; host_key_ref = [] }

abbrev pub no_gateway : Config.Gateway
no_gateway = record { namespace = []; service = []; port = pos 0 }

abbrev pub target_summary : Text → Config.Target → Target
target_summary name t = record { name = name; gateway = t.gateway; user = t.user }

abbrev pub cluster_summary : Text → Config.Cluster → Cluster
cluster_summary name c = record { name = name; kubernetes_context = c.kubernetes_context }

abbrev pub gateway_summary : Text → Config.Gateway → Gateway
gateway_summary name g = record {
  name = name;
  namespace = g.namespace;
  service = g.service;
  port = g.port;
}

unfoldable pub target_summaries : Config → List Target
unfolding summaries sort_strings keys
target_summaries c = summaries no_target target_summary c.targets (sort_strings (keys c.targets))

unfoldable pub cluster_summaries : Config → List Cluster
unfolding summaries sort_strings keys
cluster_summaries c =
    summaries no_cluster cluster_summary c.clusters (sort_strings (keys c.clusters))

unfoldable pub gateway_summaries : Config → List Gateway
unfolding summaries sort_strings keys
gateway_summaries c =
    summaries no_gateway gateway_summary c.gateways (sort_strings (keys c.gateways))

unfoldable pub list_response : CliOptions → Config → Response
unfolding target_summaries cluster_summaries gateway_summaries default_context_name
    default_gateway_name
list_response o c = record empty_response {
  status = codes "ok";
  targets = target_summaries c;
  clusters = cluster_summaries c;
  gateways = gateway_summaries c;
  default_context = default_context_name c o.context_name;
  default_gateway = default_gateway_name c o.context_name o.gateway_name;
}
