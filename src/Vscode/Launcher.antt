-- ===== src/Vscode/Launcher.antt =====
-- internal/vscode/launcher.go and internal/vscode/discovery.go: the launcher, and how it is found.
-- What the file system says of a path is the argument `exists`, and what the search path gives is
-- `in_path`.
use dev_connect.Prelude.{
  Bool, true, false, not, ◌&&◌, ◌||◌, Option, none, some, List, [], ◌∷◌, ◌++◌, ◌≡◌, refl, arith,
  if◌then◌else◌, is_nil, ◌==◌, Bool-cases, inl, inr, All,
}
use dev_connect.Text.{Text, codes, equal, trim_right}
use dev_connect.Result.{
  Result, ok, err, fail_if, ◌>>◌, ◌>>=◌, target_alias_required, launcher_path_required,
  launcher_not_found,
}

pub record LaunchOptions : Type 0 where
  pub target_alias : Text
  pub user_data_dir : Text
  pub env : List Text

unfoldable pub remote_ssh_args : LaunchOptions → Result (List Text)
remote_ssh_args o = do
  fail_if (is_nil o.target_alias) target_alias_required
  ok (
      (if is_nil o.user_data_dir then [] else codes "--user-data-dir" ∷ o.user_data_dir ∷ [])
      ++ codes "--remote" ∷ (codes "ssh-remote+" ++ o.target_alias) ∷ [])

-- The command that `Launch` runs: the program, its arguments and its environment.
pub record LaunchCommand : Type 0 where
  pub path : Text
  pub args : List Text
  pub env : List Text

unfoldable pub launch_command : Text → List Text → LaunchOptions → Result LaunchCommand
unfolding remote_ssh_args
launch_command path base_env o = do
  fail_if (is_nil path) launcher_path_required
  args ← remote_ssh_args o
  ok (record { path = path; args = args; env = base_env ++ o.env })

pub record LauncherOptions : Type 0 where
  pub goos : Text
  pub local_app_data : Text
  pub configured_path : Text

unfoldable pub default_launcher_paths : Text → Text → List Text
unfolding equal trim_right
default_launcher_paths goos local_app_data =
    if equal goos (codes "windows")
    then (if is_nil local_app_data
        then []
        else (trim_right (λ c. c == b'\\' || c == b'/') local_app_data
            ++ codes "\\Programs\\Microsoft VS Code\\bin\\code.cmd")
          ∷ [])
      ++ codes "C:\\Program Files\\Microsoft VS Code\\bin\\code.cmd"
        ∷ codes "C:\\Program Files (x86)\\Microsoft VS Code\\bin\\code.cmd"
        ∷ []
    else if equal goos (codes "darwin")
    then codes "/Applications/Visual Studio Code.app/Contents/Resources/app/bin/code"
      ∷ codes "/Applications/Visual Studio Code - Insiders.app/Contents/Resources/app/bin/code"
      ∷ []
    else codes "/usr/bin/code" ∷ codes "/usr/local/bin/code" ∷ codes "/snap/bin/code" ∷ []

-- `return path` at the first path of the loop that exists.
unfoldable pub first_existing : (Text → Bool) → List Text → Option Text
first_existing exists [] = none
first_existing exists (p ∷ ps) = if exists p then some p else first_existing exists ps

-- The configured path, after everything else.
abbrev pub configured : (Text → Bool) → Text → Option Text → Result Text
configured exists path (some p) = ok p
configured exists path none =
    if not (is_nil path) && exists path then ok path else err launcher_not_found

abbrev pub discovered : (Text → Bool) → LauncherOptions → Option Text → Result Text
discovered exists o none =
    configured exists o.configured_path
      (first_existing exists (default_launcher_paths o.goos o.local_app_data))
discovered exists o (some p) =
    if exists p
    then ok p
    else configured exists o.configured_path
        (first_existing exists (default_launcher_paths o.goos o.local_app_data))

unfoldable pub resolve_launcher : Option Text → (Text → Bool) → LauncherOptions → Result Text
unfolding default_launcher_paths first_existing
resolve_launcher in_path exists o = discovered exists o in_path

first_existing-All :
    (exists : Text → Bool) (ps : List Text)
    → All (λ p. exists p ≡ false) ps
    → first_existing exists ps ≡ none
unfolding first_existing
first_existing-All exists [] h = refl
first_existing-All exists (p ∷ ps) (hp, hs) = rw hp (first_existing-All exists ps hs)

first_existing-eq-some :
    (exists : Text → Bool) (ps : List Text) {p : Text}
    → first_existing exists ps ≡ some p
    → exists p ≡ true
unfolding first_existing
first_existing-eq-some exists [] h = cc
first_existing-eq-some exists (q ∷ ps) h = elim (Bool-cases (exists q)) [
  | inl e ↦ let same = rw (e, first_existing) at h in cc
  | inr e ↦ first_existing-eq-some exists ps (rw (e, first_existing) at h)
]

configured-eq-ok :
    (exists : Text → Bool) (path : Text) (ps : List Text) (found : Option Text) {p : Text}
    → first_existing exists ps ≡ found
    → configured exists path found ≡ ok p
    → exists p ≡ true
configured-eq-ok exists path ps (some q) at h = first_existing-eq-some exists ps (ground arith)
configured-eq-ok exists path ps none at h = ground arith

-- The launcher that is found, in the search path, at a default place or as configured, exists.
pub resolve_launcher_ok :
    (in_path : Option Text) (exists : Text → Bool) (o : LauncherOptions) {p : Text}
    → resolve_launcher in_path exists o ≡ ok p
    → exists p ≡ true
unfolding resolve_launcher
resolve_launcher_ok none exists o h =
    configured-eq-ok exists o.configured_path (default_launcher_paths o.goos o.local_app_data) _
      refl h
resolve_launcher_ok (some q) exists o h = elim (Bool-cases (exists q)) [
  | inl e ↦ let same = rw (e, resolve_launcher) at h in cc
  | inr e ↦
      configured-eq-ok exists o.configured_path (default_launcher_paths o.goos o.local_app_data) _
        refl (rw (e, resolve_launcher) at h)
]
