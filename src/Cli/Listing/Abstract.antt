-- ===== src/Cli/Listing/Abstract.antt =====
-- cmd/dev-connect/main.go: what `list` promises, on a configuration whose maps have no order.
use mathlib.Core.Quot
use dev_connect.Prelude.{not, List, [], ◌∷◌, map, ◌≡◌, refl, ap, arith, if◌then◌else◌, is_nil}
use dev_connect.Text.{Text, codes}
use dev_connect.Map.{Map, lookup}
use dev_connect.Map.Order.{sort_strings, keys}
use dev_connect.Map.Unordered.{Unordered, sorted_keys, find}
use dev_connect.Config
use dev_connect.Config.{Config, Context}
use dev_connect.Output.{Response, empty_response}
use dev_connect.Cli.{
  CliOptions, no_cluster, only_name, gateway_of, default_context_name, default_gateway_name,
}
use dev_connect.Cli.Listing.{
  at, no_target, no_gateway, target_summary, cluster_summary, gateway_summary, summaries,
  target_summaries, cluster_summaries, gateway_summaries, list_response,
}
use dev_connect.Cli.Listing.Order.{only_name-Reordered}

-- The parts of a configuration that `list` shows.
pub record Shown : Type 0 where
  pub contexts : Unordered Context
  pub clusters : Unordered Config.Cluster
  pub gateways : Unordered Config.Gateway
  pub targets : Unordered Config.Target

abbrev pub shown : Config → Shown
shown c = record {
  contexts = Quot.mk c.contexts;
  clusters = Quot.mk c.clusters;
  gateways = Quot.mk c.gateways;
  targets = Quot.mk c.targets;
}

pub Context-set : IsSet Context
Context-set = hlevel

pub Cluster-set : IsSet Config.Cluster
Cluster-set = hlevel

pub Gateway-set : IsSet Config.Gateway
Gateway-set = hlevel

pub Target-set : IsSet Config.Target
Target-set = hlevel

-- A summary of each entry, in the order of the names.
unfoldable pub listed {ℓ κ} :
    {A : Type ℓ} {B : Type κ} → IsSet A → A → (Text → A → B) → Unordered A → List B
unfolding find sorted_keys
listed s zero summary u = map (λ name. summary name (at zero (find s name u))) (sorted_keys u)

-- The name of the only context, if there is one only.
unfoldable pub only_context : Unordered Context → Text
only_context = Quot.lift (hlevel) only_name (λ m n r. only_name-Reordered r)

unfoldable pub context_shown : CliOptions → Shown → Text
unfolding only_context
context_shown o v = if is_nil o.context_name then only_context v.contexts else o.context_name

unfoldable pub gateway_shown : CliOptions → Shown → Text
unfolding context_shown find
gateway_shown o v =
    if not (is_nil o.gateway_name)
    then o.gateway_name
    else if is_nil (context_shown o v)
    then []
    else gateway_of (find Context-set (context_shown o v) v.contexts)

unfoldable pub response_shown : CliOptions → Shown → Response
unfolding listed context_shown gateway_shown
response_shown o v = record empty_response {
  status = codes "ok";
  targets = listed Target-set no_target target_summary v.targets;
  clusters = listed Cluster-set no_cluster cluster_summary v.clusters;
  gateways = listed Gateway-set no_gateway gateway_summary v.gateways;
  default_context = context_shown o v;
  default_gateway = gateway_shown o v;
}

summaries-map {ℓ κ} :
    {A : Type ℓ} {B : Type κ} (zero : A) (summary : Text → A → B) (m : Map A) (names : List Text)
    → summaries zero summary m names ≡ map (λ name. summary name (at zero (lookup name m))) names
unfolding summaries
summaries-map zero summary m [] = refl
summaries-map zero summary m (name ∷ names) =
    ap (◌∷◌ (summary name (at zero (lookup name m)))) (summaries-map zero summary m names)

default_context_name-context_shown :
    (o : CliOptions) (c : Config)
    → default_context_name c o.context_name ≡ context_shown o (shown c)
unfolding default_context_name context_shown
default_context_name-context_shown o c = ground arith

default_gateway_name-gateway_shown :
    (o : CliOptions) (c : Config)
    → default_gateway_name c o.context_name o.gateway_name ≡ gateway_shown o (shown c)
unfolding default_gateway_name gateway_shown
default_gateway_name-gateway_shown o c =
    let same = default_context_name-context_shown o c in
    λ i.
      if not (is_nil o.gateway_name)
      then o.gateway_name
      else if is_nil (same i)
      then []
      else gateway_of (lookup (same i) c.contexts)

-- `list` answers what a configuration without any order of its entries determines: a summary of
-- each target, cluster and gateway in the order of their names, the context that is given or the
-- only one there is, and the gateway that is given or that of this context.
pub list_response-response_shown :
    (o : CliOptions) (c : Config) → list_response o c ≡ response_shown o (shown c)
unfolding list_response target_summaries cluster_summaries gateway_summaries response_shown
list_response-response_shown o c = λ i. record empty_response {
  status = codes "ok";
  targets = summaries-map no_target target_summary c.targets (sort_strings (keys c.targets)) i;
  clusters = summaries-map no_cluster cluster_summary c.clusters (sort_strings (keys c.clusters)) i;
  gateways = summaries-map no_gateway gateway_summary c.gateways (sort_strings (keys c.gateways)) i;
  default_context = default_context_name-context_shown o c i;
  default_gateway = default_gateway_name-gateway_shown o c i;
}
