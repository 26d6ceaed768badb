-- ===== src/Kubectl/MergeEnv.antt =====
-- internal/kubectl/runner.go: `mergeEnv`, the overrides of one command.
use dev_connect.Prelude.{
  false, none, some, List, [], ◌∷◌, ◌++◌, ◌≡◌, refl, ap, ◌∙◌, arith, if◌then◌else◌, Option-cases,
  inl, inr,
}
use dev_connect.Text.{Text, cut, has_prefix, equal, Lacks}
use dev_connect.Proxy.{Env, entry, windows, set, named, has_env_key, same_name}
use dev_connect.Proxy.Lookup.{get, get-set, cut-entry}

-- One override: the first entry that starts with its name and `=` is replaced.
unfoldable pub replace_or_append : Text → Text → Env → Env
unfolding has_prefix
replace_or_append prefix override [] = override ∷ []
replace_or_append prefix override (e ∷ env) =
    if has_prefix e prefix then override ∷ env else e ∷ replace_or_append prefix override env

unfoldable pub merge_one : Env → Text → Env
unfolding cut replace_or_append
merge_one env override = elim (cut override b'=') [
  | none ↦ env ++ override ∷ []
  | some (key, _) ↦ replace_or_append (key ++ b'=' ∷ []) override env
]

unfoldable pub merge_env : Env → List Text → Env
unfolding merge_one
merge_env env [] = env
merge_env env (override ∷ overrides) = merge_env (merge_one env override) overrides

has_prefix-cut :
    (e key : Text)
    → Lacks b'=' key
    → has_prefix e (key ++ b'=' ∷ []) ≡ named (λ name. equal name key) (cut e b'=')
unfolding has_prefix cut equal
has_prefix-cut [] [] h = refl
has_prefix-cut [] (d ∷ key) h = refl
has_prefix-cut (c ∷ s) [] h = ground arith
has_prefix-cut (c ∷ s) (d ∷ key) (hd, hk) = elim (Option-cases (cut s b'=')) [
  | inl e ↦ ground (arith, has_prefix-cut s key hk)
  | inr (p, e) ↦ ground (arith, has_prefix-cut s key hk)
]

replace_or_append-set :
    (goos : Text) (env : Env) (key value : Text)
    → Lacks b'=' key
    → equal goos windows ≡ false
    → replace_or_append (key ++ b'=' ∷ []) (entry key value) env ≡ set goos env key value
unfolding replace_or_append set has_env_key same_name
replace_or_append-set goos [] key value h os = refl
replace_or_append-set goos (e ∷ env) key value h os =
    rw (os, has_prefix-cut e key h, replace_or_append-set goos env key value h os)

merge_one-set :
    (goos : Text) (env : Env) (key value : Text)
    → Lacks b'=' key
    → equal goos windows ≡ false
    → merge_one env (entry key value) ≡ set goos env key value
unfolding merge_one
merge_one-set goos env key value h os =
    rw (cut-entry key value h, merge_one) (replace_or_append-set goos env key value h os)

-- But on Windows an override of one variable gives it the new value, and every other variable has
-- the value that it had, as with `set` of internal/proxy. No `=` stands in the name of the
-- variable.
pub get-merge_env :
    (goos : Text) (env : Env) (key value name : Text)
    → Lacks b'=' key
    → equal goos windows ≡ false
    → get goos (merge_env env (entry key value ∷ [])) name
      ≡ (if same_name goos key name then some value else get goos env name)
unfolding merge_env
get-merge_env goos env key value name h os =
    ap (λ x. get goos x name) (merge_one-set goos env key value h os)
    ∙ get-set goos env key value name h
