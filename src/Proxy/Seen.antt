-- ===== src/Proxy/Seen.antt =====
-- The environment as a program that is started with it sees it: os/exec takes the last entry of each
-- name. `set` changes the first one, so a theorem on what is seen asks for one entry at most.
use dev_connect.Prelude.{
  Bool, true, false, not, ◌&&◌, Option, none, some, [], ◌∷◌, ◌≡◌, refl, sym, arith, if◌then◌else◌,
  Bool-cases, Option-cases, inl, inr,
}
use dev_connect.Text.{Text, codes, cut, Lacks}
use dev_connect.Proxy.{Env, ProxyConfig, same_name, has_env_key, set, set_both, build_env_for_os}
use dev_connect.Proxy.Lookup.{get, value_in, has_env_key-entry, has_env_key_other, no_clash}

abbrev first_of : Option Text → Option Text → Option Text
first_of none other = other
first_of (some value) other = some value

-- The value of the last entry with a name.
pub seen : Text → Env → Text → Option Text
seen goos [] key = none
seen goos (e ∷ env) key =
    first_of (seen goos env key)
      (if has_env_key goos e key then some (value_in (cut e b'=')) else none)

-- There is no entry with a name.
absent : Text → Env → Text → Bool
absent goos [] key = true
absent goos (e ∷ env) key = not (has_env_key goos e key) && absent goos env key

-- There is at most one entry with a name, on Windows in any case of its letters.
unfoldable pub once : Text → Env → Text → Bool
unfolding absent has_env_key
once goos [] key = true
once goos (e ∷ env) key =
    let rest = once goos env key in if has_env_key goos e key then absent goos env key else rest

seen-absent :
    (goos : Text) (env : Env) (key : Text) → absent goos env key ≡ true → seen goos env key ≡ none
unfolding seen absent
seen-absent goos [] key h = refl
seen-absent goos (e ∷ env) key h =
    let not_here : has_env_key goos e key ≡ false = ground arith in
    let not_behind : absent goos env key ≡ true = ground arith in
    rw (seen-absent goos env key not_behind, not_here) refl

-- Of a variable with one entry at most this is the one.
pub seen-once :
    (goos : Text) (env : Env) (key : Text)
    → once goos env key ≡ true
    → seen goos env key ≡ get goos env key
unfolding seen once get
seen-once goos [] key h = refl
seen-once goos (e ∷ env) key h = elim (Bool-cases (has_env_key goos e key)) [
  | inl here ↦
      let behind : absent goos env key ≡ true = rw here at h in
      rw (here, seen-absent goos env key behind) refl
  | inr other ↦
      let behind : once goos env key ≡ true = rw other at h in
      rw (other, seen-once goos env key behind)
        (elim (Option-cases (get goos env key)) [
          | inl no_entry ↦ rw (no_entry) refl
          | inr (value, found) ↦ rw (found) refl
        ])
]

absent-set :
    (goos : Text) (env : Env) (key value name : Text)
    → Lacks b'=' key
    → same_name goos key name ≡ false
    → absent goos env name ≡ true
    → absent goos (set goos env key value) name ≡ true
unfolding absent set
absent-set goos [] key value name l n h = rw (has_env_key-entry goos key value name l, n) refl
absent-set goos (e ∷ env) key value name l n h = elim (Bool-cases (has_env_key goos e key)) [
  | inl here ↦ rw (here, absent, has_env_key-entry goos key value name l, n) (ground arith)
  | inr other ↦ rw (other, absent) (ground (arith, absent-set goos env key value name l n))
]

-- `set` makes no second entry.
pub once-set :
    (goos : Text) (env : Env) (key value name : Text)
    → Lacks b'=' key
    → once goos env name ≡ true
    → once goos (set goos env key value) name ≡ true
unfolding once set absent
once-set goos [] key value name l h = ground arith
once-set goos (e ∷ env) key value name l h = elim (Bool-cases (has_env_key goos e key)) [
  | inl here ↦
      rw
        (
          here,
          once,
          has_env_key-entry goos key value name l,
          sym (has_env_key_other goos e key name here),
        )
        h
  | inr other ↦ elim (Bool-cases (has_env_key goos e name)) [
    | inl named ↦
        let behind : absent goos env name ≡ true = rw named at h in
        let apart : same_name goos key name ≡ false =
          ground (arith, no_clash goos e key name other) in
        rw (other, once, named) (absent-set goos env key value name l apart behind)
    | inr unnamed ↦
        let behind : once goos env name ≡ true = rw unnamed at h in
        rw (other, once, unnamed) (once-set goos env key value name l behind)
  ]
]

once-set_both :
    (goos : Text) (env : Env) (upper lower value name : Text)
    → Lacks b'=' upper
    → Lacks b'=' lower
    → once goos env name ≡ true
    → once goos (set_both goos env upper lower value) name ≡ true
unfolding set_both
once-set_both goos env upper lower value name hu hl h = ground (
  arith,
  once-set goos env upper value name hu h,
  once-set goos (set goos env upper value) lower value name hl,
)

pub once-build_env_for_os :
    (goos : Text) (base : Env) (c : ProxyConfig) (name : Text)
    → once goos base name ≡ true
    → once goos (build_env_for_os goos base c) name ≡ true
unfolding build_env_for_os
once-build_env_for_os goos base c name h =
    let one = set_both goos base (codes "HTTP_PROXY") (codes "http_proxy") c.http_proxy in
    let two = set_both goos one (codes "HTTPS_PROXY") (codes "https_proxy") c.https_proxy in
    elim (Bool-cases c.enabled) [
      | inl e ↦ rw e (
          once-set_both goos two (codes "NO_PROXY") (codes "no_proxy") c.no_proxy name (omega arith)
            (omega arith)
            (once-set_both goos one (codes "HTTPS_PROXY") (codes "https_proxy") c.https_proxy name
              (omega arith) (omega arith)
              (once-set_both goos base (codes "HTTP_PROXY") (codes "http_proxy") c.http_proxy name
                (omega arith) (omega arith) h)))
      | inr e ↦ rw e h
    ]
