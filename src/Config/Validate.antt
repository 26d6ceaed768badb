-- ===== src/Config/Validate.antt =====
-- internal/config/config.go: `Validate`. The loops visit the entries in any order: that of the list.
use dev_connect.Prelude.{
  Bool, false, not, ◌&&◌, Option, none, some, [], ◌∷◌, ℤ, is_negative, is_positive, is_nil,
  if◌then◌else◌,
}
use dev_connect.Text.{Text, codes, equal}
use dev_connect.Result.{
  Result, ok, fail_if, ◌>>=◌, ◌>>◌, unsupported_api_version, unsupported_kind,
  negative_alive_interval, negative_alive_count, context_missing_cluster, context_missing_gateway,
  context_unknown_cluster, context_unknown_gateway, target_missing_gateway, target_unknown_gateway,
  target_unknown_host_key, gateway_missing_namespace, gateway_missing_service, gateway_invalid_port,
}
use dev_connect.Map.{Map, has_key, text_at}
use dev_connect.Config.{Config, Context, Target, Gateway}

abbrev pub api_version : Text
api_version = codes "dev-connect/v1"

abbrev pub kind : Text
kind = codes "DevConnectConfig"

-- `p != nil && *p < 0`
abbrev pub negative : Option ℤ → Bool
negative none = false
negative (some i) = is_negative i

-- `len(m) > 0` and the key is missing
unfoldable pub unknown {ℓ} : {A : Type ℓ} → Text → Map A → Bool
unfolding has_key
unknown k m = not (is_nil m) && not (has_key k m)

unfoldable pub validate_header : Config → Result (Unit {0})
unfolding equal
validate_header c = do
  fail_if (not (equal c.api_version api_version)) (unsupported_api_version c.api_version)
  fail_if (not (equal c.kind kind)) (unsupported_kind c.kind)
  fail_if (negative c.ssh.server_alive_interval) negative_alive_interval
  fail_if (negative c.ssh.server_alive_count_max) negative_alive_count

unfoldable pub validate_context : Config → Text → Context → Result (Unit {0})
unfolding unknown
validate_context c name x = do
  fail_if (is_nil x.cluster) (context_missing_cluster name)
  fail_if (unknown x.cluster c.clusters) (context_unknown_cluster name x.cluster)
  fail_if (is_nil x.gateway) (context_missing_gateway name)
  fail_if (unknown x.gateway c.gateways) (context_unknown_gateway name x.gateway)

unfoldable pub validate_contexts : Config → Map Context → Result (Unit {0})
unfolding validate_context
validate_contexts c [] = ok tt
validate_contexts c ((name, x) ∷ m) = validate_context c name x >> validate_contexts c m

-- `target.HostKeyRef`, by default the target's name
unfoldable pub with_host_key_ref : Text → Target → Target
with_host_key_ref name t = if is_nil t.host_key_ref then record t { host_key_ref = name } else t

unfoldable pub validate_target : Config → Text → Target → Result Target
unfolding unknown text_at
validate_target c name t = do
  fail_if (is_nil t.gateway) (target_missing_gateway name)
  fail_if (unknown t.gateway c.gateways) (target_unknown_gateway name t.gateway)
  let named = with_host_key_ref name t
  fail_if (not (is_nil c.host_keys) && is_nil (text_at named.host_key_ref c.host_keys))
      (target_unknown_host_key name named.host_key_ref)
  ok named

-- The loop sets the default in the map that it visits.
unfoldable pub validate_targets : Config → Map Target → Result (Map Target)
unfolding validate_target
validate_targets c [] = ok []
validate_targets c ((name, t) ∷ m) = do
  u ← validate_target c name t
  rest ← validate_targets c m
  ok ((name, u) ∷ rest)

unfoldable pub validate_gateway : Text → Gateway → Result (Unit {0})
validate_gateway name g = do
  fail_if (is_nil g.namespace) (gateway_missing_namespace name)
  fail_if (is_nil g.service) (gateway_missing_service name)
  fail_if (not (is_positive g.port)) (gateway_invalid_port name g.port)

unfoldable pub validate_gateways : Map Gateway → Result (Unit {0})
unfolding validate_gateway
validate_gateways [] = ok tt
validate_gateways ((name, g) ∷ m) = validate_gateway name g >> validate_gateways m

-- The configuration after the call: the targets have their host keys' names.
unfoldable pub validate : Config → Result Config
unfolding validate_header validate_contexts validate_targets validate_gateways
validate c = do
  validate_header c
  validate_contexts c c.contexts
  targets ← validate_targets c c.targets
  validate_gateways c.gateways
  ok (record c { targets = targets })
