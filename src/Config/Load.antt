-- ===== src/Config/Load.antt =====
-- internal/config/config.go: where a configuration is looked for, and `Load`.
pub mod Precedence
use dev_connect.Prelude.{
  ℕ, Bool, true, false, ◌||◌, Option, none, some, List, [], ◌∷◌, ◌++◌, ◌≡◌, is_nil, if◌then◌else◌,
  ◌==◌,
}
use dev_connect.Text.{Text, codes, equal, trim_right}
use dev_connect.Text.Paths.{join_path}
use dev_connect.Result.{
  Error, Result, ok, err, ◌>>=◌, parse_yaml_failed, config_not_found, read_failed,
  app_data_required, home_dir_required, home_dir_required_macos, load_config_failed, wrap,
}
use dev_connect.World.{World, ReadResult, contents, missing, failed, read_file}
use dev_connect.Config.{Config}
use dev_connect.Config.Validate.{validate}

pub record Loaded : Type 0 where
  pub config : Config
  pub path : Text

pub record Loader : Type 0 where
  pub explicit_path : Text
  pub env_config : Text
  pub default_dir : Text
  pub development_dir : Text

-- `runtime.GOOS` and the environment variables that name directories.
pub record Platform : Type 0 where
  pub goos : Text
  pub home : Text
  pub app_data : Text

abbrev pub default_file_name : Text
default_file_name = codes "config.yaml"

abbrev is_slash : ℕ → Bool
is_slash c = c == b'/'

-- `strings.TrimRight(s, "\\/")`
abbrev is_windows_slash : ℕ → Bool
is_windows_slash c = c == b'\\' || c == b'/'

unfoldable pub default_dir_for : Text → Text → Text → Result Text
unfolding equal trim_right
default_dir_for goos home app_data =
    if equal goos (codes "windows")
    then (if is_nil app_data
        then err app_data_required
        else ok (trim_right is_windows_slash app_data ++ codes "\\dev-connect"))
    else if equal goos (codes "darwin")
    then (if is_nil home
        then err home_dir_required_macos
        else ok (trim_right is_slash home ++ codes "/Library/Application Support/dev-connect"))
    else if is_nil home
    then err home_dir_required
    else ok (trim_right is_slash home ++ codes "/.config/dev-connect")

unfoldable pub default_dir : Platform → Result Text
unfolding default_dir_for
default_dir p = default_dir_for p.goos p.home p.app_data

unfoldable pub candidates : Platform → Loader → Result (List Text)
unfolding default_dir join_path
candidates p l = do
  dir ← (if is_nil l.default_dir then default_dir p else ok l.default_dir)
  let development_dir = if is_nil l.development_dir then codes "." else l.development_dir
  ok (
      l.explicit_path
      ∷ l.env_config
      ∷ join_path dir default_file_name
      ∷ join_path development_dir default_file_name
      ∷ [])

-- `parse_yaml` stands for sigs.k8s.io/yaml's `Unmarshal` into a `Config`.
module _ (parse_yaml : Text → Option Config) where
  abbrev pub unmarshalled : Option Config → Result Config
  unmarshalled none = err parse_yaml_failed
  unmarshalled (some c) = ok c

  unfoldable pub parse : Text → Result Config
  unfolding validate
  parse t = do c ← unmarshalled (parse_yaml t); validate c

  -- One round of the loop, with what the later rounds give.
  unfoldable pub take_candidate : Text → Result Loaded → ReadResult → Result Loaded
  unfolding parse
  take_candidate p rest missing = rest
  take_candidate p rest failed = err (read_failed p)
  take_candidate p rest (contents t) =
      wrap (load_config_failed p) (parse t) >>= λ c. ok (record { config = c; path = p })

  -- The loop over the candidates.
  unfoldable pub load_first : World → List Text → Result Loaded
  unfolding take_candidate read_file
  load_first w [] = err config_not_found
  load_first w (p ∷ ps) =
      let rest = load_first w ps in if is_nil p then rest else take_candidate p rest (read_file w p)

  unfoldable pub load : Platform → Loader → World → Result Loaded
  unfolding candidates load_first
  load p l w = candidates p l >>= load_first w
