-- ===== src/Proxy/Build.antt =====
-- internal/proxy/env.go: the environment that `buildEnvForOS` builds.
use dev_connect.Prelude.{
  Bool, true, ◌∙◌, not, ◌&&◌, ◌||◌, some, ◌≡◌, arith, if◌then◌else◌, is_nil, Bool-cases, inl, inr,
}
use dev_connect.Text.{Text, codes, equal, Lacks}
use dev_connect.Proxy.{Env, ProxyConfig, windows, same_name, set, set_both, build_env_for_os}
use dev_connect.Proxy.Lookup.{get, get-set}
use dev_connect.Proxy.Seen.{seen, once, seen-once, once-build_env_for_os}

-- The names that a proxy variable is set under.
abbrev pub sets : Text → Text → Text → Text → Bool
sets goos upper lower name =
    same_name goos upper name || (not (equal goos windows) && same_name goos lower name)

get-set_both :
    (goos : Text) (env : Env) (upper lower value name : Text)
    → Lacks b'=' upper
    → Lacks b'=' lower
    → get goos (set_both goos env upper lower value) name
      ≡ (if not (is_nil value) && sets goos upper lower name then some value else get goos env name)
unfolding set_both
get-set_both goos env upper lower value name hu hl = ground (
  arith,
  get-set goos env upper value name hu,
  get-set goos (set goos env upper value) lower value name hl,
)

get-build_env_for_os :
    (goos : Text) (base : Env) (c : ProxyConfig) (name : Text)
    → get goos (build_env_for_os goos base c) name ≡ (
        if c.enabled
          && (not (is_nil c.no_proxy) && sets goos (codes "NO_PROXY") (codes "no_proxy") name)
        then some c.no_proxy
        else if c.enabled
            && (not (is_nil c.https_proxy)
                && sets goos (codes "HTTPS_PROXY") (codes "https_proxy") name)
        then some c.https_proxy
        else if c.enabled
            && (not (is_nil c.http_proxy)
                && sets goos (codes "HTTP_PROXY") (codes "http_proxy") name)
        then some c.http_proxy
        else get goos base name)
unfolding build_env_for_os
get-build_env_for_os goos base c name =
    let one = set_both goos base (codes "HTTP_PROXY") (codes "http_proxy") c.http_proxy in
    let two = set_both goos one (codes "HTTPS_PROXY") (codes "https_proxy") c.https_proxy in
    elim (Bool-cases c.enabled) [
      | inl e ↦ rw (
        e,
        get-set_both goos two (codes "NO_PROXY") (codes "no_proxy") c.no_proxy name (omega arith)
            (omega arith),
        get-set_both goos one (codes "HTTPS_PROXY") (codes "https_proxy") c.https_proxy name
            (omega arith) (omega arith),
        get-set_both goos base (codes "HTTP_PROXY") (codes "http_proxy") c.http_proxy name
            (omega arith) (omega arith),
      )
      | inr e ↦ rw e
    ]

-- What a program that is started with the environment sees of a variable that has one entry at most
-- in the inherited one: where the proxy is enabled, a proxy variable under one of its names has the
-- configured value, if there is one; every other one is as it was inherited.
pub seen-build_env_for_os :
    (goos : Text) (base : Env) (c : ProxyConfig) (name : Text)
    → once goos base name ≡ true
    → seen goos (build_env_for_os goos base c) name ≡ (
        if c.enabled
          && (not (is_nil c.no_proxy) && sets goos (codes "NO_PROXY") (codes "no_proxy") name)
        then some c.no_proxy
        else if c.enabled
            && (not (is_nil c.https_proxy)
                && sets goos (codes "HTTPS_PROXY") (codes "https_proxy") name)
        then some c.https_proxy
        else if c.enabled
            && (not (is_nil c.http_proxy)
                && sets goos (codes "HTTP_PROXY") (codes "http_proxy") name)
        then some c.http_proxy
        else seen goos base name)
seen-build_env_for_os goos base c name h =
    seen-once goos (build_env_for_os goos base c) name (once-build_env_for_os goos base c name h)
    ∙ rw (seen-once goos base name h) (get-build_env_for_os goos base c name)
