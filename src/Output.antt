-- ===== src/Output.antt =====
-- internal/output/output.go: the response of a command, and its fields in JSON.
pub mod Omit
pub mod Fields
use dev_connect.Prelude.{
  Bool, true, false, Option, none, some, List, [], ◌∷◌, map, if◌then◌else◌, is_nil, ℤ, pos, is_zero,
}
use dev_connect.Text.{Text, codes}
use dev_connect.Map.{Map}

pub record Target : Type 0 where
  pub name : Text
  pub gateway : Text
  pub user : Text

pub record Cluster : Type 0 where
  pub name : Text
  pub kubernetes_context : Text

pub record Gateway : Type 0 where
  pub name : Text
  pub namespace : Text
  pub service : Text
  pub port : ℤ

pub record Response : Type 0 where
  pub api_version : Text
  pub status : Text
  pub server : Text
  pub session_id : Text
  pub local_port : ℤ
  pub kubernetes_context : Text
  pub namespace : Text
  pub gateway : Text
  pub reconnect : Option Bool
  pub uptime : Text
  pub targets : List Target
  pub clusters : List Cluster
  pub gateways : List Gateway
  pub default_context : Text
  pub default_gateway : Text
  pub version : Text
  pub commit : Text
  pub build_date : Text
  pub go_version : Text
  pub os : Text
  pub arch : Text

-- The zero value of `Response`.
abbrev pub empty_response : Response
empty_response = record {
  api_version = [];
  status = [];
  server = [];
  session_id = [];
  local_port = pos 0;
  kubernetes_context = [];
  namespace = [];
  gateway = [];
  reconnect = none;
  uptime = [];
  targets = [];
  clusters = [];
  gateways = [];
  default_context = [];
  default_gateway = [];
  version = [];
  commit = [];
  build_date = [];
  go_version = [];
  os = [];
  arch = [];
}

abbrev pub api_version : Text
api_version = codes "v1"

unfoldable pub with_version : Response → Response
with_version r = if is_nil r.api_version then record r { api_version = api_version } else r

-- The values of JSON that a response is made of.
pub data Scalar : Type 0 where
  text : Text → Scalar
  number : ℤ → Scalar
  flag : Option Bool → Scalar

pub data Value : Type 0 where
  scalar : Scalar → Value
  objects : List (Map Scalar) → Value

-- What the tag `omitempty` leaves out.
unfoldable pub is_empty : Scalar → Bool
is_empty (text t) = is_nil t
is_empty (number n) = is_zero n
is_empty (flag none) = true
is_empty (flag (some b)) = false

unfoldable pub is_empty_value : Value → Bool
unfolding is_empty
is_empty_value (scalar s) = is_empty s
is_empty_value (objects l) = is_nil l

unfoldable pub omit_empty {ℓ} : {A : Type ℓ} → (A → Bool) → Map A → Map A
omit_empty empty [] = []
omit_empty empty ((k, v) ∷ m) =
    let rest = omit_empty empty m in if empty v then rest else (k, v) ∷ rest

-- The fields of each struct, by their tags.
unfoldable pub target_fields : Target → Map Scalar
unfolding omit_empty is_empty
target_fields t =
    (codes "name", text t.name)
    ∷ (codes "gateway", text t.gateway)
    ∷ omit_empty is_empty ((codes "user", text t.user) ∷ [])

unfoldable pub cluster_fields : Cluster → Map Scalar
unfolding omit_empty is_empty
cluster_fields c =
    (codes "name", text c.name)
    ∷ omit_empty is_empty ((codes "kubernetesContext", text c.kubernetes_context) ∷ [])

unfoldable pub gateway_fields : Gateway → Map Scalar
gateway_fields g =
    (codes "name", text g.name)
    ∷ (codes "namespace", text g.namespace)
    ∷ (codes "service", text g.service)
    ∷ (codes "port", number g.port)
    ∷ []

abbrev of_text : Text → Value
of_text t = scalar (text t)

abbrev pub optional_fields : Response → Map Value
optional_fields r =
    (codes "status", of_text r.status)
    ∷ (codes "server", of_text r.server)
    ∷ (codes "sessionId", of_text r.session_id)
    ∷ (codes "localPort", scalar (number r.local_port))
    ∷ (codes "kubernetesContext", of_text r.kubernetes_context)
    ∷ (codes "namespace", of_text r.namespace)
    ∷ (codes "gateway", of_text r.gateway)
    ∷ (codes "reconnect", scalar (flag r.reconnect))
    ∷ (codes "uptime", of_text r.uptime)
    ∷ (codes "targets", objects (map target_fields r.targets))
    ∷ (codes "clusters", objects (map cluster_fields r.clusters))
    ∷ (codes "gateways", objects (map gateway_fields r.gateways))
    ∷ (codes "defaultContext", of_text r.default_context)
    ∷ (codes "defaultGateway", of_text r.default_gateway)
    ∷ (codes "version", of_text r.version)
    ∷ (codes "commit", of_text r.commit)
    ∷ (codes "buildDate", of_text r.build_date)
    ∷ (codes "goVersion", of_text r.go_version)
    ∷ (codes "os", of_text r.os)
    ∷ (codes "arch", of_text r.arch)
    ∷ []

unfoldable pub response_fields : Response → Map Value
unfolding omit_empty is_empty_value target_fields cluster_fields gateway_fields
response_fields r =
    (codes "apiVersion", of_text r.api_version) ∷ omit_empty is_empty_value (optional_fields r)

-- `WriteJSON`; the encoder prints the fields and writes them.
unfoldable pub write_json {ℓ} : {A : Type ℓ} → (Map Value → A) → Response → A
unfolding with_version response_fields
write_json encode r = encode (response_fields (with_version r))
