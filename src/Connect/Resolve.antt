-- ===== src/Connect/Resolve.antt =====
-- internal/connect/connect.go: what `Prepare` finds in a configuration that was validated.
use dev_connect.Prelude.{
  true, false, not, ◌&&◌, Option, none, some, ◌≡◌, ◌∷◌, sym, ap, subst, ◌∙◌, arith, [], is_nil,
  Bool-cases, Option-cases, inl, inr,
}
use dev_connect.Text.{Text, equal, equal_iff}
use dev_connect.Result.{
  Error, Result, ok, err, is_ok, fail_if, ok-injective, unknown_target, unknown_gateway,
  missing_host_key,
}
use dev_connect.Result
use dev_connect.World.{World}
use dev_connect.Map.{Map, lookup, lookup-All, has_key, text_at}
use dev_connect.Config.{Config, Target}
use dev_connect.Config.Validate.{validate, unknown, with_host_key_ref}
use dev_connect.Config.WellFormed.{TargetIsValid, validate-WellFormed, with_refs}
use dev_connect.Connect.{Options, Resolved, found, resolve, or_text, prepare}
use dev_connect.Session.Store.{Codec}

has_key-lookup :
    {A : Type 0} (k : Text) (m : Map A) → has_key k m ≡ true → (v : A) × (lookup k m ≡ some v)
unfolding has_key
has_key-lookup k m h = elim (Option-cases (lookup k m)) [
  | inl e ↦ absurd (cc)
  | inr found_ ↦ found_
]

known :
    {A : Type 0} (k : Text) (m : Map A)
    → is_nil m ≡ false
    → unknown k m ≡ false
    → has_key k m ≡ true
unfolding unknown
known k m given h = ground arith

or_text-with_host_key_ref :
    (name : Text) (t : Target)
    → or_text (with_host_key_ref name t).host_key_ref name ≡ (with_host_key_ref name t).host_key_ref
unfolding with_host_key_ref
or_text-with_host_key_ref name t = ground arith

-- A target that was found has its host key's name, with no need of the default.
or_text-lookup :
    (name : Text) (m : Map Target) {t : Target}
    → lookup name (with_refs m) ≡ some t
    → or_text t.host_key_ref name ≡ t.host_key_ref
unfolding lookup
or_text-lookup name [] h = cc
or_text-lookup name ((j, u) ∷ m) {t} h = elim (Bool-cases (equal j name)) [
  | inl same ↦
      let e : with_host_key_ref j u ≡ t = cc (rw (same, lookup) at h) in
      subst (λ x. or_text x.host_key_ref name ≡ x.host_key_ref) e
        (subst
          (λ n.
            or_text (with_host_key_ref j u).host_key_ref n ≡ (with_host_key_ref j u).host_key_ref)
          ((equal_iff j name).0 same) (or_text-with_host_key_ref j u))
  | inr other ↦ or_text-lookup name m (rw (other, lookup) at h)
]

found-eq-ok : {A : Type 0} (e : Error) (m : Option A) {a : A} → found e m ≡ ok a → m ≡ some a
found-eq-ok e none h = cc
found-eq-ok e (some b) h = ap some (ok-injective h)

-- The gateway of a resolved target is the one that its name has in the configuration.
pub resolve-lookup :
    (c : Config) (name gateway_name : Text) {r : Resolved}
    → resolve c name gateway_name ≡ ok r
    → lookup r.gateway_name c.gateways ≡ some r.gateway
unfolding resolve
resolve-lookup c name gateway_name {r} h =
    let (target, _, h1) =
      Result.>>=-eq-ok (found (unknown_target name) (lookup name c.targets)) _ h in
    let used = or_text gateway_name target.gateway in
    let (gateway, known_gateway, h2) =
      Result.>>=-eq-ok (found (unknown_gateway used) (lookup used c.gateways)) _ h1 in
    let ref = or_text target.host_key_ref name in
    let (_, _, h3) =
      Result.>>=-eq-ok (fail_if (is_nil (text_at ref c.host_keys)) (missing_host_key ref)) _ h2 in
    let same = ok-injective h3 in
    subst (λ (x : Resolved). lookup x.gateway_name c.gateways ≡ some x.gateway) same
      (found-eq-ok (unknown_gateway used) (lookup used c.gateways) known_gateway)

valid-resolve :
    (d : Config) (name : Text) (t : Target)
    → TargetIsValid d t
    → is_nil d.gateways ≡ false
    → is_nil d.host_keys ≡ false
    → or_text t.host_key_ref name ≡ t.host_key_ref
    → lookup name d.targets ≡ some t
    → is_ok (resolve d name []) ≡ true
unfolding resolve
valid-resolve d name t valid gateways keys ref at =
    let (g, found_gateway) =
      has_key-lookup t.gateway d.gateways
        (known t.gateway d.gateways gateways valid.gateway_known) in
    let pinned : is_nil (text_at t.host_key_ref d.host_keys) ≡ false =
      ground (arith, valid.host_key_known) in
    rw (at, found_gateway, ref, pinned)

-- In a configuration that `Validate` has accepted, and that has gateways and pinned host keys, each
-- configured target resolves: `Prepare` does not fail for an unknown gateway or a missing host key,
-- unless another gateway is asked for.
pub validate-resolve :
    (c : Config) (name : Text) {d : Config} {t : Target}
    → validate c ≡ ok d
    → is_nil d.gateways ≡ false
    → is_nil d.host_keys ≡ false
    → lookup name d.targets ≡ some t
    → is_ok (resolve d name []) ≡ true
validate-resolve c name {d} {t} valid gateways keys at =
    let (ed, f) = validate-WellFormed c valid in
    let at' : lookup name (with_refs c.targets) ≡ some t =
      ap (λ (x : Config). lookup name x.targets) (sym ed) ∙ at in
    let is_valid : TargetIsValid c t =
      lookup-All (λ x. TargetIsValid c x) name (with_refs c.targets) f.targets at' in
    let same_gateways = ap (λ (x : Config). x.gateways) ed in
    let same_keys = ap (λ (x : Config). x.host_keys) ed in
    valid-resolve d name t
      (record {
        gateway_named = is_valid.gateway_named;
        gateway_known = ap (λ g. unknown t.gateway g) same_gateways ∙ is_valid.gateway_known;
        host_key_known =
            ap (λ k. not (is_nil k) && is_nil (text_at t.host_key_ref k)) same_keys
            ∙ is_valid.host_key_known;
      })
      gateways keys (or_text-lookup name c.targets at') at

-- A target that is not configured, an unknown gateway or a missing host key ends `Prepare` before
-- anything is written.
pub prepare_unresolved :
    (c : Codec) (o : Options) (w : World) {e : Error}
    → resolve o.config o.target_name o.gateway_name ≡ err e
    → prepare c o w ≡ (err e, w)
unfolding prepare
prepare_unresolved c o w h = rw h
