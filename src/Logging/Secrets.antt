-- ===== src/Logging/Secrets.antt =====
-- internal/logging/logging.go: no secret shows in a log.
use dev_connect.Prelude.{
  true, none, some, List, [], ◌∷◌, ◌++◌, map, ◌≡◌, refl, ap, ◌∙◌, arith, if◌then◌else◌, leb, subst,
}
use dev_connect.Text.{Text, codes, contains, to_lower}
use dev_connect.Text.Search.{contains-append}
use dev_connect.Logging.{
  Logger, Level, rank, Attr, AttrValue, contains_any, fragments, is_sensitive_key, redact_attr,
  log_attrs,
}

-- The words that name a credential.
pub data SecretName (name : Text) : Type 0 where
  password : name ≡ codes "password" → SecretName name
  privatekey : name ≡ codes "privatekey" → SecretName name
  private_key : name ≡ codes "private_key" → SecretName name
  token : name ≡ codes "token" → SecretName name
  bearer : name ≡ codes "bearer" → SecretName name
  authorization : name ≡ codes "authorization" → SecretName name
  credential : name ≡ codes "credential" → SecretName name
  kubeconfig : name ≡ codes "kubeconfig" → SecretName name
  secret : name ≡ codes "secret" → SecretName name

-- A key with such a word in it, in any case of its letters.
pub record IsSecret (key : Text) : Type 0 where
  pub before : Text
  pub name : Text
  pub behind : Text
  pub is_name : SecretName name
  pub at : to_lower key ≡ before ++ (name ++ behind)

contains_any-SecretName :
    (key : Text) {name : Text}
    → SecretName name
    → contains key name ≡ true
    → contains_any key fragments ≡ true
unfolding contains_any
contains_any-SecretName key (password e) h =
    let found : contains key (codes "password") ≡ true = subst (λ n. contains key n ≡ true) e h in
    ground arith
contains_any-SecretName key (privatekey e) h =
    let found : contains key (codes "privatekey") ≡ true = subst (λ n. contains key n ≡ true) e h in
    ground arith
contains_any-SecretName key (private_key e) h =
    let found : contains key (codes "private_key") ≡ true =
      subst (λ n. contains key n ≡ true) e h in
    ground arith
contains_any-SecretName key (token e) h =
    let found : contains key (codes "token") ≡ true = subst (λ n. contains key n ≡ true) e h in
    ground arith
contains_any-SecretName key (bearer e) h =
    let found : contains key (codes "bearer") ≡ true = subst (λ n. contains key n ≡ true) e h in
    ground arith
contains_any-SecretName key (authorization e) h =
    let found : contains key (codes "authorization") ≡ true =
      subst (λ n. contains key n ≡ true) e h in
    ground arith
contains_any-SecretName key (credential e) h =
    let found : contains key (codes "credential") ≡ true = subst (λ n. contains key n ≡ true) e h in
    ground arith
contains_any-SecretName key (kubeconfig e) h =
    let found : contains key (codes "kubeconfig") ≡ true = subst (λ n. contains key n ≡ true) e h in
    ground arith
contains_any-SecretName key (secret e) h =
    let found : contains key (codes "secret") ≡ true = subst (λ n. contains key n ≡ true) e h in
    ground arith

is_sensitive_key-IsSecret : (key : Text) → IsSecret key → is_sensitive_key key ≡ true
unfolding is_sensitive_key
is_sensitive_key-IsSecret key h =
    contains_any-SecretName (to_lower key) h.is_name
      (ap (λ s. contains s h.name) h.at ∙ contains-append h.before h.name h.behind)

-- Attributes that differ in the values of such keys only.
pub data SameVisible : List Attr → List Attr → Type 0 where
  nil : SameVisible [] []
  shown : {a : Attr} {xs ys : List Attr} → SameVisible xs ys → SameVisible (a ∷ xs) (a ∷ ys)
  hidden :
      {groups : List Text} {key : Text} {v w : AttrValue} {xs ys : List Attr}
      → IsSecret key
      → SameVisible xs ys
      → SameVisible
          (record { groups = groups; key = key; value = v } ∷ xs)
          (record { groups = groups; key = key; value = w } ∷ ys)

redact_attr-hidden :
    (groups : List Text) (key : Text) (v w : AttrValue)
    → is_sensitive_key key ≡ true
    → redact_attr (record { groups = groups; key = key; value = v })
      ≡ redact_attr (record { groups = groups; key = key; value = w })
unfolding redact_attr
redact_attr-hidden groups key v w h = rw (h)

map-SameVisible : {xs ys : List Attr} → SameVisible xs ys → map redact_attr xs ≡ map redact_attr ys
map-SameVisible nil = refl
map-SameVisible (shown {a} h) = ap (λ l. redact_attr a ∷ l) (map-SameVisible h)
map-SameVisible (hidden {groups} {key} {v} {w} s h) =
    λ i. redact_attr-hidden groups key v w (is_sensitive_key-IsSecret key s) i ∷ map-SameVisible h i

-- No value of an attribute whose own key names a credential, in any case of its letters, shows in a
-- log, whatever its level and format, whatever the value is and whatever groups it stands in: two
-- lists of attributes that differ only in such values are logged alike. The name of a group is not
-- looked at.
pub log_attrs-SameVisible :
    (logger : Logger) (level : Level) {xs ys : List Attr}
    → SameVisible xs ys
    → log_attrs logger level xs ≡ log_attrs logger level ys
unfolding log_attrs
log_attrs-SameVisible logger level h =
    ap (λ (x : List Attr). if leb (rank logger.level) (rank level) then some x else none)
      (map-SameVisible h)
