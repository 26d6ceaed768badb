-- ===== src/Config.antt =====
-- internal/config/config.go: the configuration document and its defaults.
pub mod Validate
pub mod WellFormed
pub mod Load
use dev_connect.Prelude.{Bool, true, Option, none, some, ℤ, pos}
use dev_connect.Text.{Text, codes}
use dev_connect.Map.{Map}

pub record Context : Type 0 where
  pub cluster : Text
  pub gateway : Text

pub record Proxy : Type 0 where
  pub enabled : Bool
  pub http_proxy : Text
  pub https_proxy : Text
  pub no_proxy : Text

pub record Cluster : Type 0 where
  pub kubeconfig : Text
  pub kubernetes_context : Text
  pub kubectl_path : Text
  pub proxy : Proxy

pub record Gateway : Type 0 where
  pub namespace : Text
  pub service : Text
  pub port : ℤ

pub record Target : Type 0 where
  pub gateway : Text
  pub user : Text
  pub identity_file : Text
  pub host_key_ref : Text

pub record Ssh : Type 0 where
  pub manage_user_config : Bool
  pub user_config_path : Text
  pub server_alive_interval : Option ℤ
  pub server_alive_count_max : Option ℤ
  pub tcp_keep_alive : Option Bool

pub record VscodeRemoteSetup : Type 0 where
  pub enabled : Bool
  pub ssh_path : Text
  pub http_proxy : Text
  pub https_proxy : Text
  pub no_proxy : Text
  pub proxy_support : Text
  pub batch_mode : Option Bool

pub record Vscode : Type 0 where
  pub launcher_path : Text
  pub isolated_user_data_dir : Option Bool
  pub remote_setup : VscodeRemoteSetup

pub record Config : Type 0 where
  pub api_version : Text
  pub kind : Text
  pub contexts : Map Context
  pub clusters : Map Cluster
  pub gateways : Map Gateway
  pub targets : Map Target
  pub host_keys : Map Text
  pub ssh : Ssh
  pub vscode : Vscode

-- A pointer's value, or a default where it is nil.
abbrev pub value_or {ℓ} : {A : Type ℓ} → A → Option A → A
value_or d none = d
value_or d (some a) = a

unfoldable pub effective_server_alive_interval : Ssh → ℤ
effective_server_alive_interval s = value_or (pos 30) s.server_alive_interval

unfoldable pub effective_server_alive_count_max : Ssh → ℤ
effective_server_alive_count_max s = value_or (pos 3) s.server_alive_count_max

unfoldable pub effective_tcp_keep_alive : Ssh → Bool
effective_tcp_keep_alive s = value_or true s.tcp_keep_alive

unfoldable pub use_batch_mode : VscodeRemoteSetup → Bool
use_batch_mode s = value_or true s.batch_mode

unfoldable pub use_isolated_user_data_dir : Vscode → Bool
use_isolated_user_data_dir v = value_or true v.isolated_user_data_dir
