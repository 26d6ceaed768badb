-- ===== src/Output/Fields.antt =====
-- internal/output/output.go: the fields of a response lose nothing of it, although empty ones are
-- left out.
use dev_connect.Prelude.{
  Bool, true, Option, none, some, List, [], ◌∷◌, map, ◌≡◌, refl, ap, ◌∙◌, ℤ, pos, zero, suc, negsuc,
}
use dev_connect.Text.{Text, codes, equal}
use dev_connect.Map.{Map, lookup, has_key}
use dev_connect.Output.{
  Target, Cluster, Gateway, Response, Scalar, text, number, flag, Value, scalar, objects, is_empty,
  is_empty_value, omit_empty, target_fields, cluster_fields, gateway_fields, optional_fields,
  response_fields,
}
use dev_connect.Output.Omit.{distinct, lookup-omit_empty}

-- A reader of the fields, to which a missing one is empty.
abbrev read_scalar_text : Option Scalar → Text
read_scalar_text (some (text t)) = t
read_scalar_text _ = []

abbrev read_scalar_number : Option Scalar → ℤ
read_scalar_number (some (number n)) = n
read_scalar_number _ = pos 0

abbrev read_text : Option Value → Text
read_text (some (scalar (text t))) = t
read_text _ = []

abbrev read_number : Option Value → ℤ
read_number (some (scalar (number n))) = n
read_number _ = pos 0

abbrev read_flag : Option Value → Option Bool
read_flag (some (scalar (flag b))) = b
read_flag _ = none

abbrev read_objects : Option Value → List (Map Scalar)
read_objects (some (objects l)) = l
read_objects _ = []

unfoldable pub read_target : Map Scalar → Target
unfolding lookup
read_target m = record {
  name = read_scalar_text (lookup (codes "name") m);
  gateway = read_scalar_text (lookup (codes "gateway") m);
  user = read_scalar_text (lookup (codes "user") m);
}

unfoldable pub read_cluster : Map Scalar → Cluster
unfolding lookup
read_cluster m = record {
  name = read_scalar_text (lookup (codes "name") m);
  kubernetes_context = read_scalar_text (lookup (codes "kubernetesContext") m);
}

unfoldable pub read_gateway : Map Scalar → Gateway
unfolding lookup
read_gateway m = record {
  name = read_scalar_text (lookup (codes "name") m);
  namespace = read_scalar_text (lookup (codes "namespace") m);
  service = read_scalar_text (lookup (codes "service") m);
  port = read_scalar_number (lookup (codes "port") m);
}

unfoldable pub read_response : Map Value → Response
unfolding lookup read_target read_cluster read_gateway
read_response m = record {
  api_version = read_text (lookup (codes "apiVersion") m);
  status = read_text (lookup (codes "status") m);
  server = read_text (lookup (codes "server") m);
  session_id = read_text (lookup (codes "sessionId") m);
  local_port = read_number (lookup (codes "localPort") m);
  kubernetes_context = read_text (lookup (codes "kubernetesContext") m);
  namespace = read_text (lookup (codes "namespace") m);
  gateway = read_text (lookup (codes "gateway") m);
  reconnect = read_flag (lookup (codes "reconnect") m);
  uptime = read_text (lookup (codes "uptime") m);
  targets = map read_target (read_objects (lookup (codes "targets") m));
  clusters = map read_cluster (read_objects (lookup (codes "clusters") m));
  gateways = map read_gateway (read_objects (lookup (codes "gateways") m));
  default_context = read_text (lookup (codes "defaultContext") m);
  default_gateway = read_text (lookup (codes "defaultGateway") m);
  version = read_text (lookup (codes "version") m);
  commit = read_text (lookup (codes "commit") m);
  build_date = read_text (lookup (codes "buildDate") m);
  go_version = read_text (lookup (codes "goVersion") m);
  os = read_text (lookup (codes "os") m);
  arch = read_text (lookup (codes "arch") m);
}

scalar_text_blank :
    (v : Scalar) → is_empty v ≡ true → read_scalar_text (some v) ≡ read_scalar_text none
unfolding is_empty
scalar_text_blank (text []) h = refl
scalar_text_blank (text (x ∷ t)) h = cc
scalar_text_blank (number n) h = refl
scalar_text_blank (flag b) h = refl

text_blank : (v : Value) → is_empty_value v ≡ true → read_text (some v) ≡ read_text none
unfolding is_empty_value
text_blank (scalar (text [])) h = refl
text_blank (scalar (text (x ∷ t))) h = cc
text_blank (scalar (number n)) h = refl
text_blank (scalar (flag b)) h = refl
text_blank (objects l) h = refl

number_blank : (v : Value) → is_empty_value v ≡ true → read_number (some v) ≡ read_number none
unfolding is_empty_value
number_blank (scalar (number (pos zero))) h = refl
number_blank (scalar (number (pos (suc n)))) h = cc
number_blank (scalar (number (negsuc n))) h = cc
number_blank (scalar (text t)) h = refl
number_blank (scalar (flag b)) h = refl
number_blank (objects l) h = refl

flag_blank : (v : Value) → is_empty_value v ≡ true → read_flag (some v) ≡ read_flag none
unfolding is_empty_value
flag_blank (scalar (flag none)) h = refl
flag_blank (scalar (flag (some b))) h = cc
flag_blank (scalar (text t)) h = refl
flag_blank (scalar (number n)) h = refl
flag_blank (objects l) h = refl

objects_blank : (v : Value) → is_empty_value v ≡ true → read_objects (some v) ≡ read_objects none
unfolding is_empty_value
objects_blank (objects []) h = refl
objects_blank (objects (x ∷ l)) h = cc
objects_blank (scalar s) h = refl

read_target-target_fields : (t : Target) → read_target (target_fields t) ≡ t
unfolding read_target target_fields equal has_key
read_target-target_fields t =
    ap (λ (u : Text). record t { user = u })
      (lookup-omit_empty is_empty read_scalar_text scalar_text_blank (codes "user")
        ((codes "user", text t.user) ∷ []) refl)

read_cluster-cluster_fields : (c : Cluster) → read_cluster (cluster_fields c) ≡ c
unfolding read_cluster cluster_fields equal has_key
read_cluster-cluster_fields c =
    ap (λ (x : Text). record c { kubernetes_context = x })
      (lookup-omit_empty is_empty read_scalar_text scalar_text_blank (codes "kubernetesContext")
        ((codes "kubernetesContext", text c.kubernetes_context) ∷ []) refl)

read_gateway-gateway_fields : (g : Gateway) → read_gateway (gateway_fields g) ≡ g
unfolding read_gateway gateway_fields equal
read_gateway-gateway_fields g = refl

map_inverse {ℓ κ} :
    {A : Type ℓ} {B : Type κ} (f : A → B) (g : B → A)
    → ((a : A) → g (f a) ≡ a)
    → (l : List A) → map g (map f l) ≡ l
map_inverse f g h [] = refl
map_inverse f g h (a ∷ l) = λ i. h a i ∷ map_inverse f g h l i

optional_fields-distinct : (r : Response) → distinct (optional_fields r) ≡ true
unfolding equal has_key lookup
optional_fields-distinct r = refl

module _ (r : Response) where
  -- What is read of a field behind the first one.
  kept {ℓ} :
      {B : Type ℓ} (read : Option Value → B)
      → ((v : Value) → is_empty_value v ≡ true → read (some v) ≡ read none)
      → (key : Text)
      → read (lookup key (omit_empty is_empty_value (optional_fields r)))
        ≡ read (lookup key (optional_fields r))
  kept read blank key =
      lookup-omit_empty is_empty_value read blank key (optional_fields r)
        (optional_fields-distinct r)

  listed {ℓ} :
      {A : Type ℓ} (f : A → Map Scalar) (g : Map Scalar → A)
      → ((a : A) → g (f a) ≡ a)
      → (key : Text) (l : List A) → lookup key (optional_fields r) ≡ some (objects (map f l))
      → map g (read_objects (lookup key (omit_empty is_empty_value (optional_fields r)))) ≡ l
  listed f g h key l e =
      ap (λ (x : List (Map Scalar)). map g x)
        (kept read_objects objects_blank key ∙ ap read_objects e)
      ∙ map_inverse f g h l

  -- A reader that takes a missing field for an empty one reads back every response from its fields,
  -- with its lists of targets, clusters and gateways.
  pub read_response-response_fields : read_response (response_fields r) ≡ r
  unfolding read_response response_fields equal
  read_response-response_fields =
      let targets =
        listed target_fields read_target read_target-target_fields (codes "targets") r.targets
          refl in
      let clusters =
        listed cluster_fields read_cluster read_cluster-cluster_fields (codes "clusters") r.clusters
          refl in
      let gateways =
        listed gateway_fields read_gateway read_gateway-gateway_fields (codes "gateways") r.gateways
          refl in
      λ i. record {
        api_version = r.api_version;
        status = kept read_text text_blank (codes "status") i;
        server = kept read_text text_blank (codes "server") i;
        session_id = kept read_text text_blank (codes "sessionId") i;
        local_port = kept read_number number_blank (codes "localPort") i;
        kubernetes_context = kept read_text text_blank (codes "kubernetesContext") i;
        namespace = kept read_text text_blank (codes "namespace") i;
        gateway = kept read_text text_blank (codes "gateway") i;
        reconnect = kept read_flag flag_blank (codes "reconnect") i;
        uptime = kept read_text text_blank (codes "uptime") i;
        targets = targets i;
        clusters = clusters i;
        gateways = gateways i;
        default_context = kept read_text text_blank (codes "defaultContext") i;
        default_gateway = kept read_text text_blank (codes "defaultGateway") i;
        version = kept read_text text_blank (codes "version") i;
        commit = kept read_text text_blank (codes "commit") i;
        build_date = kept read_text text_blank (codes "buildDate") i;
        go_version = kept read_text text_blank (codes "goVersion") i;
        os = kept read_text text_blank (codes "os") i;
        arch = kept read_text text_blank (codes "arch") i;
      }
