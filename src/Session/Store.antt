-- ===== src/Session/Store.antt =====
-- internal/session/session.go: `Store`, the state as a JSON file.
use dev_connect.Prelude.{ℕ, Option, none, some, [], ◌≡◌, Bool, true, ◌&&◌}
use dev_connect.Text.{Text, codes}
use dev_connect.Text.Utf8.{is_utf8}
use dev_connect.Text.Paths.{join_path}
use dev_connect.Result.{
  Result, ok, err, session_not_found, parse_state_failed, read_failed, write_failed, chmod_failed,
  mkdir_failed, remove_failed, marshal_state_failed,
}
use dev_connect.World.{
  ReadResult, contents, missing, failed, read_file, write_file, chmod, mkdir_all, remove,
}
use dev_connect.World.Steps.{M, ◌>>=◌, ◌>>◌, act, lift}
use dev_connect.Session.{State, validate}

-- The fields that JSON carries; the three credentials are marked `json:"-"`.
abbrev pub visible : State → State
visible s = record s { ssh_private_key = []; password = []; kubernetes_token = [] }

-- The texts that JSON carries are valid UTF-8; `encoding/json` stores others changed.
abbrev pub has_utf8 : State → Bool
has_utf8 s =
    is_utf8 s.session_id
    && (is_utf8 s.target
        && (is_utf8 s.gateway
            && (is_utf8 s.namespace
                && (is_utf8 s.kubernetes_context
                    && (is_utf8 s.ssh_config_path
                        && (is_utf8 s.known_hosts_path
                            && (is_utf8 s.user_ssh_config_path
                                && is_utf8 s.vscode_user_data_dir)))))))

-- `json.MarshalIndent`, with `none` for its error, and `json.Unmarshal` at this type: what is
-- written is read back where the texts are valid UTF-8.
pub record Codec : Type 0 where
  pub encode : State → Option Text
  pub decode : Text → Option State
  pub decode-encode :
      (s : State) {t : Text} → encode s ≡ some t → has_utf8 s ≡ true → decode t ≡ some (visible s)

abbrev pub state_file_mode : ℕ
state_file_mode = 0o600

unfoldable pub path : Text → Text
unfolding join_path
path dir = join_path dir (codes "session.json")

abbrev pub marshaled : Option Text → Result Text
marshaled none = err marshal_state_failed
marshaled (some t) = ok t

module _ (c : Codec) where
  unfoldable pub save : Text → State → M (Unit {0})
  unfolding validate mkdir_all write_file chmod
  save dir s = do
    lift (validate s)
    act (λ w. mkdir_all w dir) (mkdir_failed dir)
    t ← lift (marshaled (c.encode s))
    act (λ w. write_file w (path dir) t state_file_mode) (write_failed (path dir))
    act (λ w. chmod w (path dir) state_file_mode) (chmod_failed (path dir))

  abbrev pub parsed : Option State → Result State
  parsed none = err parse_state_failed
  parsed (some s) = ok s

  abbrev pub loaded : Text → ReadResult → Result State
  loaded p (contents t) = parsed (c.decode t)
  loaded p missing = err session_not_found
  loaded p failed = err (read_failed p)

  unfoldable pub load : Text → M State
  unfolding read_file
  load dir w = (loaded (path dir) (read_file w (path dir)), w)

unfoldable pub clear : Text → M (Unit {0})
unfolding remove
clear dir = act (λ w. remove w (path dir)) (remove_failed (path dir))
