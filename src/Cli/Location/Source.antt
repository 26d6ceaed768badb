-- ===== src/Cli/Location/Source.antt =====
-- cmd/dev-connect/main.go: `Load` takes the file that `config location` names.
use dev_connect.Prelude.{
  true, false, not, ◌||◌, Option, none, some, List, [], ◌∷◌, ◌≡◌, refl, sym, ap, ◌∙◌, if◌then◌else◌,
  is_nil, is_some, Bool-cases, Option-cases, inl, inr, arith, ◌++◌, subst,
}
use dev_connect.Text.{Text, codes}
use dev_connect.Text.Paths.{join_path, clean}
use dev_connect.Result.{Result, ok, ◌>>=◌, >>=-eq-ok, ok-injective, wrap, load_config_failed}
use dev_connect.World.{World, File, Call, ReadResult, contents, missing, failed, read_file}
use dev_connect.Config.{Config}
use dev_connect.Config.Load.{
  Platform, Loaded, default_dir, default_file_name, candidates, take_candidate, load_first, load,
  parse,
}
use dev_connect.Cli.Location.{first_place, config_location, loader}

is_nil-clean : (q : Text) → is_nil (clean q) ≡ false
unfolding clean
is_nil-clean q = ground arith

is_nil-join_path : (dir name : Text) → is_nil name ≡ false → is_nil (join_path dir name) ≡ false
unfolding join_path
is_nil-join_path dir [] h = cc
is_nil-join_path [] (c ∷ name) h = is_nil-clean (c ∷ name)
is_nil-join_path (d ∷ dir) (c ∷ name) h = is_nil-clean ((d ∷ dir) ++ b'/' ∷ c ∷ name)

module _ (parse_yaml : Text → Option Config) (w : World) where
  abbrev take_next : Text → List Text → ReadResult → Result Loaded
  take_next q ps x = take_candidate parse_yaml q (load_first parse_yaml w ps) x

  take_next-path :
      (q : Text) (ps : List Text) (t : Text) {r : Loaded}
      → take_next q ps (contents t) ≡ ok r
      → r.path ≡ q
  unfolding take_candidate
  take_next-path q ps t h =
      let (c, _, same) = >>=-eq-ok (wrap (load_config_failed q) (parse parse_yaml t)) _ h in
      ap (λ (x : Loaded). x.path) (sym (ok-injective same))

  -- Where there is a file, it is read or the reading fails.
  present-path :
      (q : Text) (ps : List Text) {f : File} {r : Loaded}
      → w.file q ≡ some f
      → take_next q ps (read_file w q) ≡ ok r
      → r.path ≡ q
  unfolding take_candidate
  present-path q ps {f} {r} at h = elim (Bool-cases (w.refuses Call.to_read q)) [
    | inl e ↦
        let unread : read_file w q ≡ failed = unfold read_file in rw e refl in
        let no : take_next q ps failed ≡ ok r = subst (λ x. take_next q ps x ≡ ok r) unread h in cc
    | inr e ↦
        let read : read_file w q ≡ contents f.content = unfold read_file in rw (e, at) refl in
        take_next-path q ps f.content (subst (λ x. take_next q ps x ≡ ok r) read h)
  ]

  absent-next :
      (q : Text) (ps : List Text) {r : Loaded}
      → w.file q ≡ none
      → take_next q ps (read_file w q) ≡ ok r
      → load_first parse_yaml w ps ≡ ok r
  unfolding take_candidate
  absent-next q ps {r} at h = elim (Bool-cases (w.refuses Call.to_read q)) [
    | inl e ↦
        let unread : read_file w q ≡ failed = unfold read_file in rw e refl in
        let no : take_next q ps failed ≡ ok r = subst (λ x. take_next q ps x ≡ ok r) unread h in cc
    | inr e ↦
        let gone : read_file w q ≡ missing = unfold read_file in rw (e, at) refl in
        subst (λ x. take_next q ps x ≡ ok r) gone h
  ]

  load_first-take_next :
      (q : Text) (ps : List Text)
      → is_nil q ≡ false
      → load_first parse_yaml w (q ∷ ps) ≡ take_next q ps (read_file w q)
  unfolding load_first
  load_first-take_next q ps n = rw n refl

  load_first-nil :
      (q : Text) (ps : List Text)
      → is_nil q ≡ true
      → load_first parse_yaml w (q ∷ ps) ≡ load_first parse_yaml w ps
  unfolding load_first
  load_first-nil q ps n = rw n refl

  at_default :
      (d v : Text) {f : File} {q : Text} → w.file d ≡ some f → first_place w d v ≡ ok q → d ≡ q
  unfolding first_place
  at_default d v at h = ground arith

  at_development :
      (d v : Text) {f : File} {q : Text}
      → w.file d ≡ none
      → w.file v ≡ some f
      → first_place w d v ≡ ok q
      → v ≡ q
  unfolding first_place
  at_development d v gone at h = ground arith

  -- The two places that are left when neither path is given.
  first_place-path :
      (d v : Text) {r : Loaded} {q : Text}
      → is_nil d ≡ false
      → is_nil v ≡ false
      → load_first parse_yaml w (d ∷ v ∷ []) ≡ ok r
      → first_place w d v ≡ ok q
      → r.path ≡ q
  unfolding first_place load_first
  first_place-path d v {r} {q} nd nv h l = elim (Option-cases (w.file d)) [
    | inr (f, at) ↦
        present-path d (v ∷ []) at (sym (load_first-take_next d (v ∷ []) nd) ∙ h)
        ∙ at_default d v at l
    | inl gone ↦
        let next = absent-next d (v ∷ []) gone (sym (load_first-take_next d (v ∷ []) nd) ∙ h) in
        elim (Option-cases (w.file v)) [
          | inr (g, at) ↦
              present-path v [] at (sym (load_first-take_next v [] nv) ∙ next)
              ∙ at_development d v gone at l
          | inl none_ ↦
              let no = absent-next v [] none_ (sym (load_first-take_next v [] nv) ∙ next) in cc
        ]
  ]

  -- A path that is given, and the candidates behind it.
  given-path :
      (q : Text) (ps : List Text) {r : Loaded}
      → is_nil q ≡ false
      → is_some (w.file q) ≡ true
      → load_first parse_yaml w (q ∷ ps) ≡ ok r
      → r.path ≡ q
  given-path q ps n there h = elim (Option-cases (w.file q)) [
    | inl gone ↦ let no : is_some {A = File} none ≡ true = rw gone at there in cc
    | inr (f, at) ↦ present-path q ps at (sym (load_first-take_next q ps n) ∙ h)
  ]

  -- The four candidates, in the order in which the location is decided.
  abbrev in_order : Text → Text → Text → Text → Result Text
  in_order explicit_path env_config d v =
      if not (is_nil explicit_path)
      then ok explicit_path
      else if not (is_nil env_config)
      then ok env_config
      else first_place w d v

  config_location-in_order :
      (p : Platform) (explicit_path env_config : Text) {dir : Text}
      → default_dir p ≡ ok dir
      → config_location p explicit_path env_config w
        ≡ in_order explicit_path env_config
            (join_path dir default_file_name)
            (join_path (codes ".") default_file_name)
  unfolding config_location
  config_location-in_order p explicit_path env_config {dir} found =
      ap
        (λ (x : Result Text).
          if not (is_nil explicit_path)
          then ok explicit_path
          else if not (is_nil env_config)
          then ok env_config
          else x >>= λ y.
              first_place w (join_path y default_file_name)
                (join_path (codes ".") default_file_name))
        found

  in_order-path :
      (explicit_path env_config d v : Text) {r : Loaded} {q : Text}
      → is_nil d ≡ false
      → is_nil v ≡ false
      → (is_nil explicit_path || is_some (w.file explicit_path)) ≡ true
      → (is_nil env_config || is_some (w.file env_config)) ≡ true
      → load_first parse_yaml w (explicit_path ∷ env_config ∷ d ∷ v ∷ []) ≡ ok r
      → in_order explicit_path env_config d v ≡ ok q
      → r.path ≡ q
  in_order-path (c ∷ e) n d v nd nv there there' h l =
      given-path (c ∷ e) _ refl there h ∙ ok-injective l
  in_order-path [] (c ∷ n) d v nd nv there there' h l =
      given-path (c ∷ n) _ refl there' (sym (load_first-nil [] _ refl) ∙ h) ∙ ok-injective l
  in_order-path [] [] d v nd nv there there' h l =
      first_place-path d v nd nv
        (sym (load_first-nil [] _ refl) ∙ (sym (load_first-nil [] _ refl) ∙ h)) l

  -- The file that `config location` names is the file that `Load` takes, if both succeed and if
  -- there is a file at the path that is given by the option and at the one that is given by the
  -- environment, where they are given.
  pub load-config_location :
      (p : Platform) (explicit_path env_config : Text) {r : Loaded} {q : Text}
      → (is_nil explicit_path || is_some (w.file explicit_path)) ≡ true
      → (is_nil env_config || is_some (w.file env_config)) ≡ true
      → load parse_yaml p (loader explicit_path env_config) w ≡ ok r
      → config_location p explicit_path env_config w ≡ ok q
      → r.path ≡ q
  unfolding load candidates config_location
  load-config_location p explicit_path env_config {r} {q} there there' h l =
      let (ps, listed, first) = >>=-eq-ok (candidates p (loader explicit_path env_config)) _ h in
      let (dir, found, same) = >>=-eq-ok (default_dir p) _ listed in
      let order = sym (ok-injective same) in
      let all : load_first parse_yaml w (
            explicit_path
            ∷ env_config
            ∷ join_path dir default_file_name
            ∷ join_path (codes ".") default_file_name
            ∷ [])
          ≡ ok r =
        subst (λ x. load_first parse_yaml w x ≡ ok r) order first in
      in_order-path explicit_path env_config (join_path dir default_file_name)
        (join_path (codes ".") default_file_name) (is_nil-join_path dir default_file_name refl)
        (is_nil-join_path (codes ".") default_file_name refl) there there' all
        (sym (config_location-in_order p explicit_path env_config found) ∙ l)
