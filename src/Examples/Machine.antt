-- ===== src/Examples/Machine.antt =====
-- Small machines and configurations.
use dev_connect.Prelude.{false, none, pos, true, [], ◌==◌}
use dev_connect.Text.{codes}
use dev_connect.World.{World}
use dev_connect.Prelude.{◌∷◌}
use dev_connect.Result.{ok}
use dev_connect.Config.{Config}
use dev_connect.Config.Validate.{api_version, kind}
use dev_connect.Connect.{Options}
use dev_connect.Session.{State}
use dev_connect.SshConfig.{SessionOptions}
use dev_connect.SshConfig.UserConfig.{UserConfigOptions}

-- No file, no process, and nothing refused.
abbrev pub fresh : World
fresh = record { file = λ q. none; refuses = λ c p. false; alive = λ n. false }

abbrev pub session_options : SessionOptions
session_options = record {
  dir = codes "/s";
  alias = codes "dev";
  user = codes "a b";
  identity_file = [];
  local_host = codes "::1";
  local_port = pos 2222;
  host_key = codes "k";
  server_alive_interval = pos 30;
  server_alive_count_max = pos 0;
  tcp_keep_alive = true;
}

abbrev pub user_options : UserConfigOptions
user_options = record {
  config_path = codes "/c";
  alias = codes "dev";
  user = codes "a";
  identity_file = [];
  local_host = codes "h";
  local_port = pos 2222;
  known_hosts_path = codes "/k";
  server_alive_interval = pos 30;
  server_alive_count_max = pos 3;
  tcp_keep_alive = true;
}

-- A session whose port-forward is process 7.
abbrev pub state : State
state = record {
  session_id = codes "1";
  target = codes "dev";
  gateway = codes "g";
  namespace = codes "n";
  kubernetes_context = [];
  local_port = pos 2222;
  port_forward_pid = pos 7;
  ssh_config_path = codes "/s/ssh_config";
  known_hosts_path = codes "/s/known_hosts";
  user_ssh_config_path = [];
  vscode_user_data_dir = [];
  started_at = 5;
  reconnect = true;
  ssh_private_key = [];
  password = [];
  kubernetes_token = [];
}

-- The same machine with the process 7.
abbrev pub with_process : World
with_process = record { file = λ q. none; refuses = λ c p. false; alive = λ n. n == 7 }

abbrev pub config : Config
config = record {
  api_version = api_version;
  kind = kind;
  contexts = (codes "k", record { cluster = codes "c"; gateway = codes "g" }) ∷ [];
  clusters =
      (
        codes "c",
        record {
          kubeconfig = codes "/kube";
          kubernetes_context = codes "kc";
          kubectl_path = [];
          proxy = record { enabled = false; http_proxy = []; https_proxy = []; no_proxy = [] };
        },
      )
      ∷ [];
  gateways = (codes "g", record { namespace = codes "n"; service = codes "s"; port = pos 22 }) ∷ [];
  targets =
      (
        codes "dev",
        record {
          gateway = codes "g";
          user = codes "u";
          identity_file = [];
          host_key_ref = codes "dev";
        },
      )
      ∷ [];
  host_keys = (codes "dev", codes "ssh-ed25519 A") ∷ [];
  ssh = record {
    manage_user_config = false;
    user_config_path = [];
    server_alive_interval = none;
    server_alive_count_max = none;
    tcp_keep_alive = none;
  };
  vscode = record {
    launcher_path = [];
    isolated_user_data_dir = none;
    remote_setup = record {
      enabled = false;
      ssh_path = [];
      http_proxy = [];
      https_proxy = [];
      no_proxy = [];
      proxy_support = [];
      batch_mode = none;
    };
  };
}

abbrev pub prepare_options : Options
prepare_options = record {
  config = config;
  target_name = codes "dev";
  context = codes "k";
  gateway_name = [];
  session_dir = codes "/s";
  ssh_dir = [];
  allocation = ok (record { host = codes "127.0.0.1"; port = pos 2222 });
  now = 5;
  session_id = codes "1";
  reconnect = true;
}
