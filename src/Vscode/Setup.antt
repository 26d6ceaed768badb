-- ===== src/Vscode/Setup.antt =====
-- internal/vscode/remote_setup.go: the script that sets the proxy of the remote VS Code server.
-- `marshal` stands for `json.MarshalIndent` of the settings.
pub mod Quoting
use dev_connect.Prelude.{ℕ, Bool, not, ◌&&◌, Option, List, [], ◌∷◌, ◌++◌, if◌then◌else◌, is_nil}
use dev_connect.Text.{Text, codes, replace_byte, join, split, trim_space}
use dev_connect.Result.{Result, ok, fail_if, ◌>>◌, target_alias_required, remote_proxy_required}
use dev_connect.Config.{value_or}

pub record RemoteSetupOptions : Type 0 where
  pub target_alias : Text
  pub ssh_config_path : Text
  pub ssh_path : Text
  pub http_proxy : Text
  pub https_proxy : Text
  pub no_proxy : Text
  pub proxy_support : Text
  pub batch_mode : Option Bool

unfoldable pub use_batch_mode : Option Bool → Bool
use_batch_mode value = value_or Bool.true value

unfoldable pub remote_setup_ssh_args : RemoteSetupOptions → List Text
unfolding use_batch_mode
remote_setup_ssh_args o =
    (if is_nil o.ssh_config_path then [] else codes "-F" ∷ o.ssh_config_path ∷ [])
    ++ ((if use_batch_mode o.batch_mode then codes "-o" ∷ codes "BatchMode=yes" ∷ [] else [])
        ++ o.target_alias ∷ codes "bash -s" ∷ [])

unfoldable pub primary_proxy : RemoteSetupOptions → Text
primary_proxy o = if is_nil o.https_proxy then o.http_proxy else o.https_proxy

-- The loop over the parts.
unfoldable pub trimmed_parts : List Text → List Text
unfolding trim_space
trimmed_parts [] = []
trimmed_parts (p ∷ ps) =
    let rest = trimmed_parts ps in if is_nil (trim_space p) then rest else trim_space p ∷ rest

unfoldable pub split_no_proxy : Text → List Text
unfolding split trimmed_parts
split_no_proxy value = if is_nil value then [] else trimmed_parts (split value b',')

unfoldable pub shell_quote : Text → Text
unfolding replace_byte
shell_quote value = b'\'' ∷ (replace_byte b'\'' (codes "'\\''") value ++ b'\'' ∷ [])

-- The settings: the two that may be missing are empty then.
pub record Settings : Type 0 where
  pub proxy_support : Text
  pub proxy : Text
  pub no_proxy : List Text

unfoldable pub settings_of : RemoteSetupOptions → Settings
unfolding primary_proxy split_no_proxy
settings_of o = record {
  proxy_support = if is_nil o.proxy_support then codes "override" else o.proxy_support;
  proxy = primary_proxy o;
  no_proxy = split_no_proxy o.no_proxy;
}

-- `"export " + name + "=" + shellQuote(value)`
unfoldable pub export_line : Text → Text → Text
unfolding shell_quote
export_line name value = codes "export " ++ (name ++ b'=' ∷ shell_quote value)

abbrev pub when_given : Text → List Text → List Text
when_given value lines = if is_nil value then [] else lines

unfoldable pub server_env : RemoteSetupOptions → List Text
unfolding export_line
server_env o =
    codes "# BEGIN dev-connect remote proxy"
    ∷ (when_given o.https_proxy (
          export_line (codes "HTTPS_PROXY") o.https_proxy
          ∷ export_line (codes "https_proxy") o.https_proxy
          ∷ [])
        ++ (when_given o.http_proxy (
              export_line (codes "HTTP_PROXY") o.http_proxy
              ∷ export_line (codes "http_proxy") o.http_proxy
              ∷ [])
            ++ (when_given o.no_proxy (
                  export_line (codes "NO_PROXY") o.no_proxy
                  ∷ codes "export no_proxy=\"$NO_PROXY\""
                  ∷ [])
                ++ codes "# END dev-connect remote proxy" ∷ [])))

-- The script before the environment, between it and the settings, and after them.
abbrev script_start : List Text
script_start =
    codes "set -eu"
    ∷ codes "mkdir -p \"$HOME/.vscode-server\" \"$HOME/.vscode-server/data/Machine\""
    ∷ []
    ∷ codes "cat > \"$HOME/.vscode-server/server-env-setup\" <<'DEV_CONNECT_SERVER_ENV'"
    ∷ []

abbrev script_middle : List Text
script_middle =
    codes "DEV_CONNECT_SERVER_ENV"
    ∷ codes "chmod 600 \"$HOME/.vscode-server/server-env-setup\""
    ∷ []
    ∷ codes
        "cat > \"$HOME/.vscode-server/data/Machine/dev-connect-settings.json\" <<'DEV_CONNECT_SETTINGS'"
    ∷ []

abbrev script_end : List Text
script_end =
    codes "DEV_CONNECT_SETTINGS"
    ∷ []
    ∷ codes "settings=\"$HOME/.vscode-server/data/Machine/settings.json\""
    ∷ codes "desired=\"$HOME/.vscode-server/data/Machine/dev-connect-settings.json\""
    ∷ codes "if command -v python3 >/dev/null 2>&1; then"
    ∷ codes "  python3 - \"$settings\" \"$desired\" <<'PY'"
    ∷ codes "import json"
    ∷ codes "import sys"
    ∷ codes "from pathlib import Path"
    ∷ []
    ∷ codes "settings_path = Path(sys.argv[1])"
    ∷ codes "desired_path = Path(sys.argv[2])"
    ∷ codes "try:"
    ∷ codes "    current = json.loads(settings_path.read_text()) if settings_path.exists() else {}"
    ∷ codes "    if not isinstance(current, dict):"
    ∷ codes "        current = {}"
    ∷ codes "except Exception:"
    ∷ codes "    current = {}"
    ∷ codes "desired = json.loads(desired_path.read_text())"
    ∷ codes "current.update(desired)"
    ∷ codes "settings_path.write_text(json.dumps(current, indent=2) + \"\\n\")"
    ∷ codes "PY"
    ∷ codes "else"
    ∷ codes "  cp \"$desired\" \"$settings\""
    ∷ codes "fi"
    ∷ codes "chmod 600 \"$settings\""
    ∷ codes "rm -f \"$desired\""
    ∷ []
    ∷ []

unfoldable pub render_remote_setup_script : (Settings → Text) → RemoteSetupOptions → Text
unfolding settings_of server_env join
render_remote_setup_script marshal o =
    join (script_start ++ (server_env o ++ (script_middle ++ marshal (settings_of o) ∷ script_end)))
      (b'\n' ∷ [])

-- The ssh command that `ConfigureRemote` runs, with its input.
pub record RemoteCommand : Type 0 where
  pub path : Text
  pub args : List Text
  pub stdin : Text

unfoldable pub configure_remote : (Settings → Text) → RemoteSetupOptions → Result RemoteCommand
unfolding remote_setup_ssh_args render_remote_setup_script
configure_remote marshal o = do
  fail_if (is_nil o.target_alias) target_alias_required
  fail_if (is_nil o.http_proxy && is_nil o.https_proxy) remote_proxy_required
  ok (record {
    path = if is_nil o.ssh_path then codes "ssh" else o.ssh_path;
    args = remote_setup_ssh_args o;
    stdin = render_remote_setup_script marshal o;
  })
