-- ===== src/Cli/Environment.antt =====
-- cmd/dev-connect/main.go: the environment of kubectl.
use dev_connect.Prelude.{
  Bool, true, false, not, ◌&&◌, ◌||◌, Option, none, some, [], ◌∷◌, ◌≡◌, refl, ◌∙◌, ap, arith,
  if◌then◌else◌, is_nil, Option-cases, inl, inr,
}
use dev_connect.Text.{Text, codes, equal, equal_iff, equal_fold, cut, Lacks}
use dev_connect.Text
use dev_connect.Config.{Cluster, Proxy}
use dev_connect.Proxy.{
  Env, ProxyConfig, windows, entry, set, has_env_key, same_name, build_env_for_os,
}
use dev_connect.Proxy.Lookup.{get, get-set}
use dev_connect.Proxy.Seen.{seen, once, seen-once, once-set, once-build_env_for_os}

-- The test of one entry in the loop.
abbrev is_entry_of : Text → Text → Option (Text × Text) → Bool
is_entry_of goos key none = false
is_entry_of goos key (some (name, _)) =
    equal name key || (equal goos windows && equal_fold name key)

unfoldable pub set_process_env : Text → Env → Text → Text → Env
unfolding equal equal_fold cut
set_process_env goos [] key value = entry key value ∷ []
set_process_env goos (e ∷ env) key value =
    let rest = set_process_env goos env key value in
    if is_entry_of goos key (cut e b'=') then entry key value ∷ env else e ∷ rest

unfoldable pub proxy_config : Proxy → ProxyConfig
proxy_config p = record {
  enabled = p.enabled;
  http_proxy = p.http_proxy;
  https_proxy = p.https_proxy;
  no_proxy = p.no_proxy;
}

unfoldable pub kubectl_base_env_from : Env → Text → Cluster → Env
unfolding set_process_env proxy_config build_env_for_os
kubectl_base_env_from base goos cluster =
    let env = build_env_for_os goos base (proxy_config cluster.proxy) in
    if is_nil cluster.kubeconfig
    then env
    else set_process_env goos env (codes "KUBECONFIG") cluster.kubeconfig

fold_of_equal : (a b : Text) → equal a b ≡ true → equal_fold a b ≡ true
unfolding equal_fold
fold_of_equal a b h = (equal_iff _ _).1 (ap (λ t. Text.to_lower t) ((equal_iff a b).0 h))

is_entry_of-has_env_key :
    (goos key e : Text) → is_entry_of goos key (cut e b'=') ≡ has_env_key goos e key
unfolding has_env_key same_name
is_entry_of-has_env_key goos key e = elim (Option-cases (cut e b'=')) [
  | inl n ↦ rw n
  | inr (p, at) ↦ rw at (ground (arith, fold_of_equal p.0 key))
]

-- The two functions of the program that set a variable agree.
pub set_process_env-set :
    (goos : Text) (env : Env) (key value : Text)
    → set_process_env goos env key value ≡ set goos env key value
unfolding set_process_env set
set_process_env-set goos [] key value = refl
set_process_env-set goos (e ∷ env) key value =
    rw (is_entry_of-has_env_key goos key e, set_process_env-set goos env key value) refl

get-kubectl_base_env_from :
    (base : Env) (goos : Text) (cluster : Cluster) (name : Text)
    → get goos (kubectl_base_env_from base goos cluster) name ≡ (
        if not (is_nil cluster.kubeconfig) && same_name goos (codes "KUBECONFIG") name
        then some cluster.kubeconfig
        else get goos (build_env_for_os goos base (proxy_config cluster.proxy)) name)
unfolding kubectl_base_env_from
get-kubectl_base_env_from base goos cluster name =
    let env = build_env_for_os goos base (proxy_config cluster.proxy) in
    let key = codes "KUBECONFIG" in
    rw (set_process_env-set goos env key cluster.kubeconfig)
      (ground (arith, get-set goos env key cluster.kubeconfig name (omega arith)))

once-kubectl_base_env_from :
    (base : Env) (goos : Text) (cluster : Cluster) (name : Text)
    → once goos base name ≡ true
    → once goos (kubectl_base_env_from base goos cluster) name ≡ true
unfolding kubectl_base_env_from
once-kubectl_base_env_from base goos cluster name h =
    let env = build_env_for_os goos base (proxy_config cluster.proxy) in
    let key = codes "KUBECONFIG" in
    let built = once-build_env_for_os goos base (proxy_config cluster.proxy) name h in
    rw (set_process_env-set goos env key cluster.kubeconfig)
      (ground (arith, once-set goos env key cluster.kubeconfig name (omega arith) built))

-- What kubectl sees of a variable that has one entry at most in the inherited environment: the
-- cluster's kubeconfig under its name, where the cluster has one, and for every other name what it
-- would see of what the proxy settings make of the inherited environment.
pub seen-kubectl_base_env_from :
    (base : Env) (goos : Text) (cluster : Cluster) (name : Text)
    → once goos base name ≡ true
    → seen goos (kubectl_base_env_from base goos cluster) name ≡ (
        if not (is_nil cluster.kubeconfig) && same_name goos (codes "KUBECONFIG") name
        then some cluster.kubeconfig
        else seen goos (build_env_for_os goos base (proxy_config cluster.proxy)) name)
seen-kubectl_base_env_from base goos cluster name h =
    let built = once-build_env_for_os goos base (proxy_config cluster.proxy) name h in
    seen-once goos (kubectl_base_env_from base goos cluster) name
      (once-kubectl_base_env_from base goos cluster name h)
    ∙ rw (seen-once goos (build_env_for_os goos base (proxy_config cluster.proxy)) name built)
        (get-kubectl_base_env_from base goos cluster name)
