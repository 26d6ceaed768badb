-- ===== src/Proxy.antt =====
-- internal/proxy/env.go: the environment of kubectl, a list of entries `name=value`.
pub mod Lookup
pub mod Seen
pub mod Build
use dev_connect.Prelude.{
  ℕ, Bool, true, false, not, Option, none, some, List, [], ◌∷◌, ◌++◌, if◌then◌else◌, is_nil,
}
use dev_connect.Text.{Text, codes, equal, equal_fold, cut}

abbrev pub Env : Type 0
Env = List Text

pub record ProxyConfig : Type 0 where
  pub enabled : Bool
  pub http_proxy : Text
  pub https_proxy : Text
  pub no_proxy : Text

abbrev pub windows : Text
windows = codes "windows"

-- Two names of one variable: on Windows the case of letters does not count.
unfoldable pub same_name : Text → Text → Text → Bool
unfolding equal equal_fold
same_name goos name key = if equal goos windows then equal_fold name key else equal name key

abbrev pub named : (Text → Bool) → Option (Text × Text) → Bool
named p none = false
named p (some (name, _)) = p name

unfoldable pub has_env_key : Text → Text → Text → Bool
unfolding same_name cut
has_env_key goos entry key = named (λ name. same_name goos name key) (cut entry b'=')

-- The entry that a variable gets.
abbrev pub entry : Text → Text → Text
entry key value = key ++ b'=' ∷ value

unfoldable pub set : Text → Env → Text → Text → Env
unfolding has_env_key
set goos [] key value = entry key value ∷ []
set goos (e ∷ env) key value =
    if has_env_key goos e key then entry key value ∷ env else e ∷ set goos env key value

-- One proxy variable: the upper case name, and the lower case one too but on Windows.
unfoldable pub set_both : Text → Env → Text → Text → Text → Env
unfolding set
set_both goos env upper lower value =
    if is_nil value
    then env
    else let first = set goos env upper value in
      if equal goos windows then first else set goos first lower value

unfoldable pub build_env_for_os : Text → Env → ProxyConfig → Env
unfolding set_both
build_env_for_os goos base c =
    if not c.enabled
    then base
    else set_both goos
        (set_both goos (set_both goos base (codes "HTTP_PROXY") (codes "http_proxy") c.http_proxy)
          (codes "HTTPS_PROXY") (codes "https_proxy") c.https_proxy)
        (codes "NO_PROXY") (codes "no_proxy") c.no_proxy
