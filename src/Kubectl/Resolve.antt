-- ===== src/Kubectl/Resolve.antt =====
-- internal/kubectl/runner.go: where the kubectl executable is found. What the file system says of a
-- path is the argument `stat`; permission bits are numbers.
pub mod Found
use dev_connect.Prelude.{
  ℕ, ◌+◌, ◌*◌, ◌/◌, ◌%◌, Bool, true, false, not, ◌&&◌, ◌||◌, Option, none, some, List, [], ◌∷◌,
  ◌++◌, if◌then◌else◌, is_nil, ◌==◌,
}
use dev_connect.Text.{Text, codes, equal, to_lower, has_prefix, split}
use dev_connect.Text.Paths.{join_path, dir_of}
use dev_connect.Result.{
  Error, Result, ok, err, executable_name_required, executable_not_found, no_such_file,
  is_a_directory, not_windows_executable, not_executable, kubectl_not_found,
}
use dev_connect.Proxy.{windows}

pub record FileInfo : Type 0 where
  pub is_dir : Bool
  pub mode : ℕ

-- `mode & 0o111 == 0`: no execute bit of the owner, the group or the others
abbrev pub is_executable : ℕ → Bool
is_executable mode = mode % 2 == 1 || (mode / 8 % 2 == 1 || mode / 64 % 2 == 1)

-- `filepath.Ext`: from the last dot of the last element on.
unfoldable pub ext_from : Text → Option Text
ext_from [] = none
ext_from (c ∷ s) = elim (ext_from s) [
  | some e ↦ some e
  | none ↦ if c == b'.' then some (c ∷ s) else none
]

-- The text behind the last separator.
unfoldable pub last_element : Text → Text → Text
last_element seen [] = seen
last_element seen (c ∷ s) = last_element (if c == b'/' then [] else seen ++ c ∷ []) s

abbrev pub text_of : Option Text → Text
text_of none = []
text_of (some t) = t

unfoldable pub ext : Text → Text
unfolding ext_from last_element
ext p = text_of (ext_from (last_element [] p))

unfoldable pub is_windows_executable : Text → Bool
unfolding equal
is_windows_executable e =
    equal e (codes ".exe")
    || (equal e (codes ".cmd") || (equal e (codes ".bat") || equal e (codes ".com")))

unfoldable pub executable_name_for_os : Text → Text → Text
unfolding ext equal
executable_name_for_os name goos =
    if equal goos windows && is_nil (ext name) then name ++ codes ".exe" else name

unfoldable pub default_kubectl_paths : Text → List Text
unfolding equal
default_kubectl_paths goos =
    if equal goos windows
    then codes "C:\\Program Files\\dev-connect\\kubectl.exe"
      ∷ codes "C:\\Program Files\\Kubernetes\\kubectl.exe"
      ∷ codes "C:\\Windows\\System32\\kubectl.exe"
      ∷ []
    else if equal goos (codes "darwin")
    then codes "/opt/homebrew/bin/kubectl"
      ∷ codes "/usr/local/bin/kubectl"
      ∷ codes "/usr/bin/kubectl"
      ∷ []
    else codes "/usr/local/bin/kubectl" ∷ codes "/usr/bin/kubectl" ∷ codes "/snap/bin/kubectl" ∷ []

pub record ResolveOptions : Type 0 where
  pub explicit_path : Text
  pub env_path : Text
  pub configured_path : Text
  pub dev_connect_path : Text
  pub path_env : Text
  pub goos : Text
  pub additional_default : List Text

-- `filepath.SplitList`: no element for an empty text.
unfoldable pub split_list : Text → List Text
unfolding split
split_list [] = []
split_list (c ∷ s) = split (c ∷ s) b':'

-- `filepath.IsAbs`
abbrev pub is_abs : Text → Bool
is_abs p = has_prefix p (codes "/")

module _ (stat : Text → Option FileInfo) where
  abbrev pub judge_file : Text → Text → Option FileInfo → Result Text
  judge_file goos path none = err (no_such_file path)
  judge_file goos path (some info) =
      if info.is_dir
      then err (is_a_directory path)
      else if equal goos windows
      then (if is_windows_executable (to_lower (ext path))
          then ok path
          else err (not_windows_executable path))
      else if is_executable info.mode
      then ok path
      else err (not_executable path)

  unfoldable pub executable_path_for_os : Text → Text → Result Text
  unfolding equal to_lower ext is_windows_executable
  executable_path_for_os goos path = judge_file goos path (stat path)

  -- The result of a step, or what comes after it.
  abbrev pub or_else : Result Text → Result Text → Result Text
  or_else (ok p) next = ok p
  or_else (err _) next = next

  -- `return path` at the first candidate that is an executable, or what comes after the loop.
  unfoldable pub first_executable : Text → List Text → Result Text → Result Text
  unfolding executable_path_for_os
  first_executable goos [] last = last
  first_executable goos (p ∷ ps) last =
      or_else (executable_path_for_os goos p) (first_executable goos ps last)

  -- The candidates in the search paths; an empty one is passed over.
  unfoldable pub search_candidates : Text → Text → List Text → List Text
  unfolding join_path executable_name_for_os
  search_candidates goos name [] = []
  search_candidates goos name (dir ∷ dirs) =
      let rest = search_candidates goos name dirs in
      if is_nil dir then rest else join_path dir (executable_name_for_os name goos) ∷ rest

  unfoldable pub resolve_executable_for_os : Text → Text → List Text → Result Text
  unfolding first_executable search_candidates has_prefix
  resolve_executable_for_os goos name search_paths =
      if is_nil name
      then err executable_name_required
      else if is_abs name
      then executable_path_for_os goos name
      else first_executable goos (search_candidates goos name search_paths)
          (err (executable_not_found name))

  -- Beside the program itself, in the search path, and at the default places.
  unfoldable pub discover : ResolveOptions → Result Text
  unfolding resolve_executable_for_os dir_of default_kubectl_paths split_list
  discover o =
      let places =
        first_executable o.goos (default_kubectl_paths o.goos ++ o.additional_default)
          (err kubectl_not_found) in
      let in_path =
        or_else (resolve_executable_for_os o.goos (codes "kubectl") (split_list o.path_env))
          places in
      if is_nil o.dev_connect_path
      then in_path
      else or_else
          (executable_path_for_os o.goos (
            join_path (dir_of o.dev_connect_path)
              (executable_name_for_os (codes "kubectl") o.goos)))
          in_path

  -- The first of three paths that is given decides alone.
  unfoldable pub resolve_local_executable : ResolveOptions → Result Text
  unfolding discover
  resolve_local_executable o =
      if not (is_nil o.explicit_path)
      then resolve_executable_for_os o.goos o.explicit_path []
      else if not (is_nil o.env_path)
      then resolve_executable_for_os o.goos o.env_path []
      else if not (is_nil o.configured_path)
      then resolve_executable_for_os o.goos o.configured_path []
      else discover o
