-- ===== src/Config/WellFormed.antt =====
-- What a configuration is that `Validate` accepts.
use dev_connect.Prelude.{
  true, false, not, ◌&&◌, [], ◌∷◌, ◌≡◌, refl, sym, ap, ◌∙◌, arith, is_positive, is_nil, All,
}
use dev_connect.Text.{Text, equal, equal_iff}
use dev_connect.Result.{ok, >>=-eq-ok, ok-injective}
use dev_connect.Map.{Map, text_at}
use dev_connect.Config.{Config, Context, Target, Gateway}
use dev_connect.Config.Validate.{
  api_version, kind, negative, unknown, validate_header, validate_context, validate_contexts,
  with_host_key_ref, validate_target, validate_targets, validate_gateway, validate_gateways,
  validate,
}

-- A context names a cluster and a gateway, each of them configured if any is.
pub record ContextIsValid (c : Config) (x : Context) : Type 0 where
  pub cluster_named : is_nil x.cluster ≡ false
  pub cluster_known : unknown x.cluster c.clusters ≡ false
  pub gateway_named : is_nil x.gateway ≡ false
  pub gateway_known : unknown x.gateway c.gateways ≡ false

-- A target names a gateway, configured if any is, and a pinned host key, pinned if any is.
pub record TargetIsValid (c : Config) (t : Target) : Type 0 where
  pub gateway_named : is_nil t.gateway ≡ false
  pub gateway_known : unknown t.gateway c.gateways ≡ false
  pub host_key_known :
      (not (is_nil c.host_keys) && is_nil (text_at t.host_key_ref c.host_keys)) ≡ false

pub record GatewayIsValid (g : Gateway) : Type 0 where
  pub namespace_named : is_nil g.namespace ≡ false
  pub service_named : is_nil g.service ≡ false
  pub port_positive : is_positive g.port ≡ true

-- Each target with the name of its host key set.
abbrev pub with_refs : Map Target → Map Target
with_refs [] = []
with_refs ((name, t) ∷ m) = (name, with_host_key_ref name t) ∷ with_refs m

pub record WellFormed (c : Config) : Type 0 where
  pub version : c.api_version ≡ api_version
  pub document : c.kind ≡ kind
  pub interval : negative c.ssh.server_alive_interval ≡ false
  pub count_max : negative c.ssh.server_alive_count_max ≡ false
  pub contexts : All (λ (e : Text × Context). ContextIsValid c e.1) c.contexts
  pub targets : All (λ (e : Text × Target). TargetIsValid c e.1) (with_refs c.targets)
  pub gateways : All (λ (e : Text × Gateway). GatewayIsValid e.1) c.gateways

validate_header-eq-ok :
    (c : Config)
    → validate_header c ≡ ok tt
    → (equal c.api_version api_version ≡ true)
      × (equal c.kind kind ≡ true)
      × (negative c.ssh.server_alive_interval ≡ false)
      × (negative c.ssh.server_alive_count_max ≡ false)
unfolding validate_header
validate_header-eq-ok c h = (ground arith, ground arith, ground arith, ground arith)

validate_context-ContextIsValid :
    (c : Config) (name : Text) (x : Context)
    → validate_context c name x ≡ ok tt
    → ContextIsValid c x
unfolding validate_context
validate_context-ContextIsValid c name x h = record {
  cluster_named = ground arith;
  cluster_known = ground arith;
  gateway_named = ground arith;
  gateway_known = ground arith;
}

validate_contexts-All :
    (c : Config) (m : Map Context)
    → validate_contexts c m ≡ ok tt
    → All (λ (e : Text × Context). ContextIsValid c e.1) m
unfolding validate_contexts
validate_contexts-All c [] h = tt
validate_contexts-All c ((name, x) ∷ m) h =
    let (_, first, rest) = >>=-eq-ok (validate_context c name x) (λ _. validate_contexts c m) h in
    (validate_context-ContextIsValid c name x first, validate_contexts-All c m rest)

validate_gateway-GatewayIsValid :
    (name : Text) (g : Gateway) → validate_gateway name g ≡ ok tt → GatewayIsValid g
unfolding validate_gateway
validate_gateway-GatewayIsValid name g h = record {
  namespace_named = ground arith;
  service_named = ground arith;
  port_positive = ground arith;
}

validate_gateways-All :
    (m : Map Gateway)
    → validate_gateways m ≡ ok tt
    → All (λ (e : Text × Gateway). GatewayIsValid e.1) m
unfolding validate_gateways
validate_gateways-All [] h = tt
validate_gateways-All ((name, g) ∷ m) h =
    let (_, first, rest) = >>=-eq-ok (validate_gateway name g) (λ _. validate_gateways m) h in
    (validate_gateway-GatewayIsValid name g first, validate_gateways-All m rest)

with_host_key_ref-gateway :
    (name : Text) (t : Target) → (with_host_key_ref name t).gateway ≡ t.gateway
unfolding with_host_key_ref
with_host_key_ref-gateway name t = ground arith

validate_target-eq-ok :
    (c : Config) (name : Text) (t : Target) {u : Target}
    → validate_target c name t ≡ ok u
    → (u ≡ with_host_key_ref name t)
      × (is_nil t.gateway ≡ false)
      × (unknown t.gateway c.gateways ≡ false)
      × ((not (is_nil c.host_keys)
            && is_nil (text_at (with_host_key_ref name t).host_key_ref c.host_keys))
          ≡ false)
unfolding validate_target
validate_target-eq-ok c name t h = (ground arith, ground arith, ground arith, ground arith)

validate_target-TargetIsValid :
    (c : Config) (name : Text) (t : Target) {u : Target}
    → validate_target c name t ≡ ok u
    → TargetIsValid c (with_host_key_ref name t)
validate_target-TargetIsValid c name t h =
    let (_, named, known, pinned) = validate_target-eq-ok c name t h in
    let same = with_host_key_ref-gateway name t in
    record {
      gateway_named = ap (λ g. is_nil g) same ∙ named;
      gateway_known = ap (λ g. unknown g c.gateways) same ∙ known;
      host_key_known = pinned;
    }

validate_targets-All :
    (c : Config) (m : Map Target) {n : Map Target}
    → validate_targets c m ≡ ok n
    → (n ≡ with_refs m) × All (λ (e : Text × Target). TargetIsValid c e.1) (with_refs m)
unfolding validate_targets
validate_targets-All c [] h = (ground arith, tt)
validate_targets-All c ((name, t) ∷ m) {n} h =
    let (u, first, h1) = >>=-eq-ok (validate_target c name t) _ h in
    let (rest, others, h2) = >>=-eq-ok (validate_targets c m) _ h1 in
    let (same_rest, valid_rest) = validate_targets-All c m others in
    let same = (validate_target-eq-ok c name t first).0 in
    (
      sym (ok-injective h2) ∙ (λ i. (name, same i) ∷ same_rest i),
      (validate_target-TargetIsValid c name t first, valid_rest),
    )

-- What `Validate` accepts is well formed; it returns the configuration with the name of each
-- target's host key set.
pub validate-WellFormed :
    (c : Config) {d : Config}
    → validate c ≡ ok d
    → (d ≡ record c { targets = with_refs c.targets }) × WellFormed c
unfolding validate
validate-WellFormed c {d} h =
    let (_, header, h1) = >>=-eq-ok (validate_header c) _ h in
    let (_, contexts, h2) = >>=-eq-ok (validate_contexts c c.contexts) _ h1 in
    let (ts, targets, h3) = >>=-eq-ok (validate_targets c c.targets) _ h2 in
    let (_, gateways, h4) = >>=-eq-ok (validate_gateways c.gateways) _ h3 in
    let (version, document, interval, count) = validate_header-eq-ok c header in
    let (same, valid) = validate_targets-All c c.targets targets in
    (
      sym (ok-injective h4)
          ∙ ap (λ (n : Map Target). let x : Config = record c { targets = n } in x) same,
      record {
        version = (equal_iff c.api_version api_version).0 version;
        document = (equal_iff c.kind kind).0 document;
        interval = interval;
        count_max = count;
        contexts = validate_contexts-All c c.contexts contexts;
        targets = valid;
        gateways = validate_gateways-All c.gateways gateways;
      },
    )

header_ok : (c : Config) → WellFormed c → validate_header c ≡ ok tt
unfolding validate_header
header_ok c f = rw (
  (equal_iff c.api_version api_version).1 f.version,
  (equal_iff c.kind kind).1 f.document,
  f.interval,
  f.count_max,
)

contexts_ok :
    (c : Config) (m : Map Context)
    → All (λ (e : Text × Context). ContextIsValid c e.1) m
    → validate_contexts c m ≡ ok tt
unfolding validate_contexts validate_context
contexts_ok c [] h = refl
contexts_ok c ((name, x) ∷ m) (hx, hm) =
    rw (hx.cluster_named, hx.cluster_known, hx.gateway_named, hx.gateway_known) (contexts_ok c m hm)

gateways_ok :
    (m : Map Gateway)
    → All (λ (e : Text × Gateway). GatewayIsValid e.1) m
    → validate_gateways m ≡ ok tt
unfolding validate_gateways validate_gateway
gateways_ok [] h = refl
gateways_ok ((name, g) ∷ m) (hg, hm) =
    rw (hg.namespace_named, hg.service_named, hg.port_positive) (gateways_ok m hm)

target_ok :
    (c : Config) (name : Text) (t : Target)
    → TargetIsValid c (with_host_key_ref name t)
    → validate_target c name t ≡ ok (with_host_key_ref name t)
unfolding validate_target
target_ok c name t h =
    let same = with_host_key_ref-gateway name t in
    rw (
      ap (λ g. is_nil g) (sym same) ∙ h.gateway_named,
      ap (λ g. unknown g c.gateways) (sym same) ∙ h.gateway_known,
      h.host_key_known,
    )

targets_ok :
    (c : Config) (m : Map Target)
    → All (λ (e : Text × Target). TargetIsValid c e.1) (with_refs m)
    → validate_targets c m ≡ ok (with_refs m)
unfolding validate_targets
targets_ok c [] h = refl
targets_ok c ((name, t) ∷ m) (ht, hm) = rw (target_ok c name t ht, targets_ok c m hm)

-- Conversely a well-formed configuration is accepted, whatever the order of its maps, and returned
-- with the name of each target's host key set.
pub WellFormed-validate :
    (c : Config) → WellFormed c → validate c ≡ ok (record c { targets = with_refs c.targets })
unfolding validate
WellFormed-validate c f = rw (
  header_ok c f,
  contexts_ok c c.contexts f.contexts,
  targets_ok c c.targets f.targets,
  gateways_ok c.gateways f.gateways,
)
