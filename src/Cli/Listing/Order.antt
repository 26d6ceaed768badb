-- ===== src/Cli/Listing/Order.antt =====
-- cmd/dev-connect/main.go: the answer of `list` in a fixed order, though Go visits a map in any order.
use dev_connect.Prelude.{
  subst, Bool, not, List, [], ◌∷◌, map, ◌≡◌, refl, sym, ap, ◌∙◌, if◌then◌else◌, is_nil,
}
use dev_connect.Text.{Text, codes}
use dev_connect.Map.{Map, lookup}
use dev_connect.Map.Order.{
  nil, cons, swap, trans, sort_strings, keys, Reordered, lookup-Reordered, sort_strings-Reordered,
  IsSorted, sort_strings-IsSorted,
}
use dev_connect.Config
use dev_connect.Config.{Config, Context}
use dev_connect.Output.{Target, empty_response}
use dev_connect.Cli.{
  CliOptions, default_context_name, default_gateway_name, no_cluster, only_name, gateway_of,
}
use dev_connect.Cli.Listing.{
  at, no_target, no_gateway, target_summary, cluster_summary, gateway_summary, summaries,
  target_summaries, cluster_summaries, gateway_summaries, list_response,
}

summaries-Reordered {ℓ κ} :
    {A : Type ℓ} {B : Type κ} (zero : A) (summary : Text → A → B) {m n : Map A} (names : List Text)
    → Reordered A m n
    → summaries zero summary m names ≡ summaries zero summary n names
unfolding summaries
summaries-Reordered zero summary [] r = refl
summaries-Reordered zero summary (name ∷ names) r = λ i.
    summary name (at zero (lookup-Reordered r name i)) ∷ summaries-Reordered zero summary names r i

sorted_summaries {ℓ κ} :
    {A : Type ℓ} {B : Type κ} (zero : A) (summary : Text → A → B) {m n : Map A}
    → Reordered A m n
    → summaries zero summary m (sort_strings (keys m))
      ≡ summaries zero summary n (sort_strings (keys n))
sorted_summaries zero summary {m} {n} r =
    summaries-Reordered zero summary (sort_strings (keys m)) r
    ∙ ap (summaries zero summary n) (sort_strings-Reordered r)

is_nil-Reordered : {m n : Map Context} → Reordered Context m n → is_nil m ≡ is_nil n
is_nil-Reordered nil = refl
is_nil-Reordered (cons k v r) = refl
is_nil-Reordered (swap k v j u m other) = refl
is_nil-Reordered (trans r s) = is_nil-Reordered r ∙ is_nil-Reordered s

only_name-cons :
    (k : Text) (v : Context) (m : Map Context)
    → only_name ((k, v) ∷ m) ≡ (if is_nil m then k else [])
only_name-cons k v [] = refl
only_name-cons k v (e ∷ m) = refl

pub only_name-Reordered : {m n : Map Context} → Reordered Context m n → only_name m ≡ only_name n
only_name-Reordered nil = refl
only_name-Reordered (cons {m} {n} k v r) =
    only_name-cons k v m
    ∙ ap (λ (b : Bool). if b then k else []) (is_nil-Reordered r)
    ∙ sym (only_name-cons k v n)
only_name-Reordered (swap k v j u m other) = refl
only_name-Reordered (trans r s) = only_name-Reordered r ∙ only_name-Reordered s

-- Two configurations that differ in the order of their maps at most.
pub record SameMaps (c d : Config) : Type 0 where
  pub contexts : Reordered Context c.contexts d.contexts
  pub clusters : Reordered Config.Cluster c.clusters d.clusters
  pub gateways : Reordered Config.Gateway c.gateways d.gateways
  pub targets : Reordered Config.Target c.targets d.targets

default_context_name-SameMaps :
    (c d : Config) (name : Text)
    → SameMaps c d
    → default_context_name c name ≡ default_context_name d name
unfolding default_context_name
default_context_name-SameMaps c d name h =
    ap (λ (t : Text). if not (is_nil name) then name else t) (only_name-Reordered h.contexts)

default_gateway_name-SameMaps :
    (c d : Config) (context gateway : Text)
    → SameMaps c d
    → default_gateway_name c context gateway ≡ default_gateway_name d context gateway
unfolding default_gateway_name
default_gateway_name-SameMaps c d context gateway h =
    let same = default_context_name-SameMaps c d context h in
    let found =
      lookup-Reordered h.contexts (default_context_name c context)
      ∙ ap (λ (t : Text). lookup t d.contexts) same in
    λ i.
      if not (is_nil gateway) then gateway else if is_nil (same i) then [] else gateway_of (found i)

names_sorted {ℓ κ} :
    {A : Type ℓ} {B : Type κ} (zero : A) (summary : Text → A → B) (name : B → Text)
    → ((t : Text) (a : A) → name (summary t a) ≡ t)
    → (m : Map A) (names : List Text) → map name (summaries zero summary m names) ≡ names
unfolding summaries
names_sorted zero summary name h m [] = refl
names_sorted zero summary name h m (t ∷ names) =
    λ i. h t (at zero (lookup t m)) i ∷ names_sorted zero summary name h m names i

target_names-IsSorted : (c : Config) → IsSorted (map (λ (t : Target). t.name) (target_summaries c))
unfolding target_summaries
target_names-IsSorted c =
    subst IsSorted
      (sym (
        names_sorted no_target target_summary (λ (t : Target). t.name) (λ t a. refl) c.targets
          (sort_strings (keys c.targets))))
      (sort_strings-IsSorted (keys c.targets))

same_response :
    (o : CliOptions) (c d : Config) → SameMaps c d → list_response o c ≡ list_response o d
unfolding list_response target_summaries cluster_summaries gateway_summaries
same_response o c d h =
    let targets = sorted_summaries no_target target_summary h.targets in
    let clusters = sorted_summaries no_cluster cluster_summary h.clusters in
    let gateways = sorted_summaries no_gateway gateway_summary h.gateways in
    λ i. record empty_response {
      status = codes "ok";
      targets = targets i;
      clusters = clusters i;
      gateways = gateways i;
      default_context = default_context_name-SameMaps c d o.context_name h i;
      default_gateway = default_gateway_name-SameMaps c d o.context_name o.gateway_name h i;
    }

-- The response of `list` does not depend on the order in which a loop visits the maps of the
-- configuration, and the names of its targets are sorted.
pub list_response-SameMaps :
    (o : CliOptions) (c d : Config)
    → SameMaps c d
    → (list_response o c ≡ list_response o d)
      × IsSorted (map (λ (t : Target). t.name) (list_response o c).targets)
unfolding list_response
list_response-SameMaps o c d h = (same_response o c d h, target_names-IsSorted c)
