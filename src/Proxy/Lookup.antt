-- ===== src/Proxy/Lookup.antt =====
-- Reading an environment: what setting a variable does to it and to the others.
use dev_connect.Prelude.{
  true, false, Option, none, some, [], ◌∷◌, ◌≡◌, refl, sym, ap, ◌∙◌, arith, if◌then◌else◌,
  Bool-cases, Option-cases, inl, inr,
}
use dev_connect.Text.{Text, equal, equal_iff, equal_fold, cut, Lacks, to_lower}
use dev_connect.Proxy.{Env, windows, same_name, has_env_key, entry, set}

pub cut-entry : (key value : Text) → Lacks b'=' key → cut (entry key value) b'=' ≡ some (key, value)
unfolding cut
cut-entry [] value h = refl
cut-entry (c ∷ key) value (hc, hk) = ground (arith, cut-entry key value hk)

equal_refl : (a : Text) → equal a a ≡ true
equal_refl a = (equal_iff a a).1 refl

pub same_name_refl : (goos key : Text) → same_name goos key key ≡ true
unfolding same_name equal_fold
same_name_refl goos key = elim (Bool-cases (equal goos windows)) [
  | inl e ↦ rw e (equal_refl (to_lower key))
  | inr e ↦ rw e (equal_refl key)
]

-- Names are compared by what they are mapped to, so that the comparison can be chained.
canonical : Text → Text → Text
canonical goos name = if equal goos windows then to_lower name else name

same_name-canonical :
    (goos a b : Text) → same_name goos a b ≡ equal (canonical goos a) (canonical goos b)
unfolding same_name canonical equal_fold
same_name-canonical goos a b = elim (Bool-cases (equal goos windows)) [
  | inl e ↦ rw e
  | inr e ↦ rw e
]

-- Two names of one variable are told apart from a third alike.
same_name_trans :
    (goos a b c : Text) → same_name goos a b ≡ true → same_name goos a c ≡ same_name goos b c
same_name_trans goos a b c h =
    same_name-canonical goos a c
    ∙ ap (λ x. equal x (canonical goos c))
        ((equal_iff (canonical goos a) (canonical goos b)).0
          (sym (same_name-canonical goos a b) ∙ h))
    ∙ sym (same_name-canonical goos b c)

abbrev pub value_in : Option (Text × Text) → Text
value_in none = []
value_in (some (_, value)) = value

-- The value of the first entry with a name, which is the one that is set.
unfoldable pub get : Text → Env → Text → Option Text
get goos [] key = none
get goos (e ∷ env) key =
    if has_env_key goos e key then some (value_in (cut e b'=')) else get goos env key

pub has_env_key-entry :
    (goos key value name : Text)
    → Lacks b'=' key
    → has_env_key goos (entry key value) name ≡ same_name goos key name
unfolding has_env_key
has_env_key-entry goos key value name h = rw (cut-entry key value h)

-- An entry of one variable is no entry of another.
pub has_env_key_other :
    (goos e key name : Text)
    → has_env_key goos e key ≡ true
    → has_env_key goos e name ≡ same_name goos key name
unfolding has_env_key
has_env_key_other goos e key name h = elim (Option-cases (cut e b'=')) [
  | inl none_ ↦ absurd (no_entry (rw none_ at h))
  | inr (p, found) ↦ rw found (same_name_trans goos p.0 key name (rw found at h))
]
  where
    no_entry : false ≡ true → ⊥
    no_entry x = cc

pub no_clash :
    (goos e key name : Text)
    → has_env_key goos e key ≡ false
    → same_name goos key name ≡ true
    → has_env_key goos e name ≡ false
no_clash goos e key name absent same = elim (Bool-cases (has_env_key goos e name)) [
  | inr no_entry ↦ no_entry
  | inl x ↦
      let back =
        has_env_key_other goos e name key x
        ∙ sym (same_name_trans goos key name key same)
        ∙ same_name_refl goos key in
      cc
]

-- After a variable was set, it has the value, and every variable of another name has the value that
-- it had. No `=` stands in the name.
pub get-set :
    (goos : Text) (env : Env) (key value name : Text)
    → Lacks b'=' key
    → get goos (set goos env key value) name
      ≡ (if same_name goos key name then some value else get goos env name)
unfolding get set
get-set goos [] key value name h =
    rw (has_env_key-entry goos key value name h, cut-entry key value h)
get-set goos (e ∷ env) key value name h = elim (Bool-cases (has_env_key goos e key)) [
  | inl here ↦
      rw (here, get, has_env_key-entry goos key value name h, cut-entry key value h)
        (ground (arith, has_env_key_other goos e key name here))
  | inr other ↦
      rw (other, get)
        (ground (arith, get-set goos env key value name h, no_clash goos e key name other))
]
