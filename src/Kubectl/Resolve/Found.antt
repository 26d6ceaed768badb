-- ===== src/Kubectl/Resolve/Found.antt =====
-- internal/kubectl/runner.go: what is found is an executable.
use dev_connect.Prelude.{
  Bool, true, false, not, Option, some, List, [], ◌∷◌, ◌++◌, ◌≡◌, refl, sym, arith, if◌then◌else◌,
  is_nil, Option-cases, inl, inr, subst,
}
use dev_connect.Text.{Text, codes, equal, to_lower}
use dev_connect.Result.{
  Error, Result, ok, err, executable_not_found, executable_name_required, kubectl_not_found,
  no_such_file,
}
use dev_connect.Text.Paths.{join_path, dir_of}
use dev_connect.Proxy.{windows}
use dev_connect.Kubectl.Resolve.{
  FileInfo, is_executable, ext, is_windows_executable, ResolveOptions, is_abs, judge_file,
  executable_path_for_os, or_else, first_executable, search_candidates, resolve_executable_for_os,
  default_kubectl_paths, split_list, executable_name_for_os, discover, resolve_local_executable,
}

module _ (stat : Text → Option FileInfo) (goos : Text) where
  -- A file that the system can run: no directory, with an execute bit, or on Windows with the name
  -- of an executable.
  pub record IsExecutable (path : Text) : Type 0 where
    pub info : FileInfo
    pub found : stat path ≡ some info
    pub no_directory : info.is_dir ≡ false
    pub can_run :
        (if equal goos windows
          then is_windows_executable (to_lower (ext path))
          else is_executable info.mode)
        ≡ true

  judge_file-eq-ok :
      (path : Text) (info : FileInfo) {p : Text}
      → judge_file stat goos path (some info) ≡ ok p
      → (p ≡ path)
        × (info.is_dir ≡ false)
        × ((if equal goos windows
              then is_windows_executable (to_lower (ext path))
              else is_executable info.mode)
            ≡ true)
  judge_file-eq-ok path info h = (ground arith, ground arith, ground arith)

  -- What a result gives is an executable, if it gives anything.
  abbrev Sound : Result Text → Type 0
  Sound r = (p : Text) → r ≡ ok p → IsExecutable p

  err-Sound : (e : Error) → Sound (err e)
  err-Sound e p h = cc

  if-Sound : (b : Bool) (r s : Result Text) → Sound r → Sound s → Sound (if b then r else s)
  if-Sound true r s hr hs = hr
  if-Sound false r s hr hs = hs

  or_else-Sound : (r s : Result Text) → Sound r → Sound s → Sound (or_else stat r s)
  or_else-Sound (ok q) s hr hs = hr
  or_else-Sound (err e) s hr hs = hs

  judge_file-Sound : (path : Text) → Sound (judge_file stat goos path (stat path))
  judge_file-Sound path p h = elim (Option-cases (stat path)) [
    | inl e ↦ let no : err (no_such_file path) ≡ ok p = rw e at h in cc
    | inr (info, e) ↦
        let (named, is_file, runs) = judge_file-eq-ok path info (rw e at h) in
        subst IsExecutable (sym named)
          (record { info = info; found = e; no_directory = is_file; can_run = runs })
  ]

  executable_path-Sound : (path : Text) → Sound (executable_path_for_os stat goos path)
  unfolding executable_path_for_os
  executable_path-Sound path = judge_file-Sound path

  first_executable-Sound :
      (ps : List Text) (last : Result Text)
      → Sound last
      → Sound (first_executable stat goos ps last)
  unfolding first_executable
  first_executable-Sound [] last h = h
  first_executable-Sound (q ∷ ps) last h =
      or_else-Sound (executable_path_for_os stat goos q) (first_executable stat goos ps last)
        (executable_path-Sound q) (first_executable-Sound ps last h)

  resolve_executable-Sound :
      (name : Text) (dirs : List Text) → Sound (resolve_executable_for_os stat goos name dirs)
  unfolding resolve_executable_for_os
  resolve_executable-Sound name dirs =
      if-Sound (is_nil name) _ _ (err-Sound executable_name_required) (
        if-Sound (is_abs name) _ _ (executable_path-Sound name) (
          first_executable-Sound (search_candidates stat goos name dirs) _
            (err-Sound (executable_not_found name))))

module _ (stat : Text → Option FileInfo) (o : ResolveOptions) where
  discover-Sound : Sound stat o.goos (discover stat o)
  unfolding discover
  discover-Sound =
      let places =
        first_executable-Sound stat o.goos (default_kubectl_paths o.goos ++ o.additional_default)
          (err kubectl_not_found) (err-Sound stat o.goos kubectl_not_found) in
      let in_path =
        or_else-Sound stat o.goos _ _
          (resolve_executable-Sound stat o.goos (codes "kubectl") (split_list o.path_env)) places in
      if-Sound stat o.goos (is_nil o.dev_connect_path) _ _ in_path (
        or_else-Sound stat o.goos _ _
          (executable_path-Sound stat o.goos (
            join_path (dir_of o.dev_connect_path)
              (executable_name_for_os (codes "kubectl") o.goos)))
          in_path)

  -- Wherever kubectl is found, at a path that is given, beside the program, in the search path or at
  -- a default place, the file is there, is no directory, and can be executed; on Windows it has the
  -- name of an executable instead.
  pub resolve_local_executable-IsExecutable :
      {p : Text} → resolve_local_executable stat o ≡ ok p → IsExecutable stat o.goos p
  unfolding resolve_local_executable
  resolve_local_executable-IsExecutable {p} h =
      if-Sound stat o.goos (not (is_nil o.explicit_path)) _ _
        (resolve_executable-Sound stat o.goos o.explicit_path [])
        (if-Sound stat o.goos (not (is_nil o.env_path)) _ _
          (resolve_executable-Sound stat o.goos o.env_path [])
          (if-Sound stat o.goos (not (is_nil o.configured_path)) _ _
            (resolve_executable-Sound stat o.goos o.configured_path []) discover-Sound))
        p h

  -- A path that is given but not absolute is never found, whatever stands there: it is looked for in
  -- no directory at all.
  pub resolve_local_executable_relative :
      is_nil o.explicit_path ≡ false
      → is_abs o.explicit_path ≡ false
      → resolve_local_executable stat o ≡ err (executable_not_found o.explicit_path)
  unfolding resolve_local_executable resolve_executable_for_os first_executable search_candidates
  resolve_local_executable_relative given relative = rw (given, relative) refl
