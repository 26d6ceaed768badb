-- ===== src/Cli/Location.antt =====
-- cmd/dev-connect/main.go: `config location`.
pub mod Source
use dev_connect.Prelude.{
  Bool, true, false, not, ◌&&◌, ◌||◌, Option, none, some, List, [], ◌∷◌, ◌≡◌, refl, sym, ap, ◌∙◌,
  if◌then◌else◌, is_nil, is_some, Bool-cases, Option-cases, inl, inr, arith, ◌++◌, subst,
}
use dev_connect.Text.{Text, codes}
use dev_connect.Text.Paths.{join_path, clean}
use dev_connect.Result.{
  Result, ok, err, ◌>>=◌, >>=-eq-ok, ok-injective, stat_failed, wrap, load_config_failed,
}
use dev_connect.World.{World, File, Call, ReadResult, contents, missing, failed, read_file}
use dev_connect.Config.{Config}
use dev_connect.Config.Load.{
  Platform, Loader, Loaded, default_dir, default_file_name, candidates, take_candidate, load_first,
  load, parse,
}

-- `os.Stat`, where the caller asks only whether there is a file: `none` is another error than a
-- missing file.
unfoldable pub stat : World → Text → Option Bool
stat w p = if w.refuses Call.to_stat p then none else some (is_some (w.file p))

-- The path to the first of two places, unless the file is only at the second.
unfoldable pub first_place : World → Text → Text → Result Text
unfolding stat
first_place w default_path development_path = elim (stat w default_path) [
  | none ↦ err (stat_failed default_path)
  | some at_default ↦ if at_default then ok default_path else elim (stat w development_path) [
    | none ↦ err (stat_failed development_path)
    | some at_development ↦ if at_development then ok development_path else ok default_path
  ]
]

unfoldable pub config_location : Platform → Text → Text → World → Result Text
unfolding default_dir join_path first_place
config_location p explicit_path env_config w =
    if not (is_nil explicit_path)
    then ok explicit_path
    else if not (is_nil env_config)
    then ok env_config
    else default_dir p >>= λ dir.
        first_place w (join_path dir default_file_name) (join_path (codes ".") default_file_name)

-- The loader of the command.
abbrev pub loader : Text → Text → Loader
loader explicit_path env_config = record {
  explicit_path = explicit_path;
  env_config = env_config;
  default_dir = [];
  development_dir = [];
}
