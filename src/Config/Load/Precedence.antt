-- ===== src/Config/Load/Precedence.antt =====
-- internal/config/config.go: which source `Load` takes.
use dev_connect.Prelude.{
  Bool, true, false, ◌||◌, Option, List, [], ◌∷◌, ◌++◌, ◌≡◌, refl, sym, ap, ◌∙◌, arith, is_nil, All,
  Bool-cases, inl, inr,
}
use dev_connect.Text.{Text}
use dev_connect.Result.{
  Error, Result, ok, err, ◌>>=◌, >>=-eq-ok, ok-injective, load_config_failed, wrap,
}
use dev_connect.World.{World, ReadResult, contents, missing, failed, read_file}
use dev_connect.Config.{Config}
use dev_connect.Config.Validate.{validate}
use dev_connect.Config.Load.{
  Loaded, Loader, Platform, parse, take_candidate, load_first, load, candidates, unmarshalled,
}

abbrev is_missing : ReadResult → Bool
is_missing missing = true
is_missing _ = false

-- A candidate that the loop passes over: not given, or no file.
pub is_skipped : World → Text → Bool
is_skipped w p = is_nil p || is_missing (read_file w p)

wrap-eq-ok : {A : Type 0} (f : Error → Error) (r : Result A) {a : A} → wrap f r ≡ ok a → r ≡ ok a
wrap-eq-ok f (ok a) h = h
wrap-eq-ok f (err e) h = cc

module _ (parse_yaml : Text → Option Config) where
  -- What a successful load rests on: the candidates before the path are passed over, and the file
  -- at the path holds the configuration.
  pub record Found (w : World) (ps : List Text) (r : Loaded) : Type 0 where
    pub before : List Text
    pub after : List Text
    pub text : Text
    pub order : ps ≡ before ++ r.path ∷ after
    pub passed_over : All (λ q. is_skipped w q ≡ true) before
    pub given : is_nil r.path ≡ false
    pub found : read_file w r.path ≡ contents text
    pub parsed : parse parse_yaml text ≡ ok r.config

  further :
      (w : World) (p : Text) (ps : List Text) {r : Loaded}
      → is_skipped w p ≡ true
      → Found w ps r
      → Found w (p ∷ ps) r
  further w p ps skip f = record {
    before = p ∷ f.before;
    after = f.after;
    text = f.text;
    order = ap (◌∷◌ p) f.order;
    passed_over = (skip, f.passed_over);
    given = f.given;
    found = f.found;
    parsed = f.parsed;
  }

  here :
      (w : World) (p t : Text) (ps : List Text) {r : Loaded}
      → is_nil p ≡ false
      → read_file w p ≡ contents t
      → (wrap (load_config_failed p) (parse parse_yaml t) >>= λ c.
          ok (record { config = c; path = p }))
        ≡ ok r
      → Found w (p ∷ ps) r
  here w p t ps {r} given found h =
      let (c, parsed, same) = >>=-eq-ok (wrap (load_config_failed p) (parse parse_yaml t)) _ h in
      let e = ok-injective same in
      let named = ap (λ (x : Loaded). x.path) e in
      record {
        before = [];
        after = ps;
        text = t;
        order = ap (λ q. q ∷ ps) named;
        passed_over = tt;
        given = ap (λ q. is_nil q) (sym named) ∙ given;
        found = ap (λ q. read_file w q) (sym named) ∙ found;
        parsed =
            wrap-eq-ok (load_config_failed p) (parse parse_yaml t) parsed
            ∙ ap (λ (x : Loaded). ok x.config) e;
      }

  skipped_missing : (w : World) (p : Text) → read_file w p ≡ missing → is_skipped w p ≡ true
  unfolding is_skipped
  skipped_missing w p h = ground arith

  skipped_nil : (w : World) (p : Text) → is_nil p ≡ true → is_skipped w p ≡ true
  unfolding is_skipped
  skipped_nil w p h = rw h

  take_candidate-Found :
      (w : World) (p : Text) (ps : List Text) (x : ReadResult) {r : Loaded}
      → is_nil p ≡ false
      → read_file w p ≡ x
      → (load_first parse_yaml w ps ≡ ok r → Found w ps r)
      → take_candidate parse_yaml p (load_first parse_yaml w ps) x ≡ ok r
      → Found w (p ∷ ps) r
  unfolding take_candidate
  take_candidate-Found w p ps missing given e later h =
      further w p ps (skipped_missing w p e) (later h)
  take_candidate-Found w p ps failed given e later h = cc
  take_candidate-Found w p ps (contents t) given e later h = here w p t ps given e h

  load_first-Found :
      (w : World) (ps : List Text) {r : Loaded} → load_first parse_yaml w ps ≡ ok r → Found w ps r
  unfolding load_first
  load_first-Found w [] h = cc
  load_first-Found w (p ∷ ps) {r} h = elim (Bool-cases (is_nil p)) [
    | inl e ↦ further w p ps (skipped_nil w p e) (load_first-Found w ps (rw (e, load_first) at h))
    | inr e ↦
        take_candidate-Found w p ps (read_file w p) e refl (λ k. load_first-Found w ps k)
          (rw (e, load_first) at h)
  ]

  -- A successful `Load` has taken the first candidate, in the order of the candidates, that is
  -- given and whose file exists; all before it are not given or missing. That file was parsed, and
  -- validated, to the configuration that is returned.
  pub load-Found :
      (p : Platform) (l : Loader) (w : World) {r : Loaded}
      → load parse_yaml p l w ≡ ok r
      → (ps : List Text) × (c : Config) × (candidates p l ≡ ok ps)
        × Found w ps r
        × (validate c ≡ ok r.config)
  unfolding load parse
  load-Found p l w h =
      let (ps, listed, loaded) = >>=-eq-ok (candidates p l) _ h in
      let f = load_first-Found w ps loaded in
      let (c, _, valid) = >>=-eq-ok (unmarshalled parse_yaml (parse_yaml f.text)) _ f.parsed in
      (ps, c, listed, f, valid)
