-- ===== src/Result.antt =====
-- What a call returns besides its value: Go's `error`, one constructor for each failure that the
-- program reports, with the values that the message quotes. A failed system call is named after the
-- call and carries the path.
use dev_connect.Prelude.{Bool, true, false, ◌≡◌, refl, ℤ, ◌⊎◌, inl, inr}
use dev_connect.Text.{Text}

pub data Error : Type 0 where
  -- internal/sshconfig
  ssh_dir_required ssh_alias_required local_host_required host_key_required : Error
  user_config_path_required alias_has_newline known_hosts_path_required : Error
  home_required : Error
  invalid_local_port : ℤ → Error
  -- system calls, with the path
  mkdir_failed write_failed chmod_failed remove_failed read_failed stat_failed : Text → Error
  -- internal/session
  session_not_found session_locked : Error
  session_has_private_key session_has_password session_has_token : Error
  marshal_state_failed parse_state_failed : Error
  acquire_lock_failed close_failed : Text → Error
  terminate_failed : ℤ → Error
  -- internal/config
  unsupported_api_version unsupported_kind : Text → Error
  negative_alive_interval negative_alive_count : Error
  context_missing_cluster context_missing_gateway : Text → Error
  context_unknown_cluster context_unknown_gateway : Text → Text → Error
  target_missing_gateway : Text → Error
  target_unknown_gateway target_unknown_host_key : Text → Text → Error
  gateway_missing_namespace gateway_missing_service : Text → Error
  gateway_invalid_port : Text → ℤ → Error
  parse_yaml_failed config_not_found : Error
  app_data_required home_dir_required home_dir_required_macos : Error
  load_config_failed : Text → Error → Error
  -- internal/kubectl, internal/tunnel, internal/preflight
  runner_required : Error
  kubectl_failed : ℤ → Text → Error
  kubectl_path_required ready_required exited_before_readiness : Error
  run_kubectl_failed run_until_ready_failed start_until_ready_failed : Error → Error
  open_stdout_failed open_stderr_failed start_kubectl_failed wait_failed : Text → Error
  connectivity_failed rbac_failed functional_failed : Error → Error
  permission_denied port_forward_not_ready : Error
  -- internal/vscode
  target_alias_required remote_proxy_required : Error
  launcher_path_required launcher_not_found user_data_dir_required ssh_config_path_required : Error
  launch_failed : Error → Error
  remote_setup_failed : Error → Text → Error
  launcher_exited : ℤ → Text → Error
  executable_name_required : Error
  executable_not_found no_such_file is_a_directory not_windows_executable not_executable :
      Text → Error
  kubectl_not_found : Error
  -- cmd/dev-connect
  unsupported_log_format unsupported_log_level : Error
  invalid_output invalid_log_format invalid_log_level : Text → Error
  unknown_cluster unknown_context unknown_gateway unknown_target : Text → Error
  context_required : Error
  context_refers_to_unknown_cluster : Text → Text → Error
  missing_host_key : Text → Error
  allocate_port_failed : Error → Error
  session_dir_required unexpected_listener_address : Error
  resolve_loopback_failed listen_failed : Text → Error
  canceled supervisor_exited : Error
  parse_local_port_failed : Text → Error
  no_own_executable start_supervisor_failed : Error
  open_log_failed : Text → Error
  supervisor_session_dir_required supervisor_ready_file_required : Error
  target_mismatch : Text → Text → Error

pub data Result {ℓ} (A : Type ℓ) : Type ℓ where
  ok : A → Result A
  err : Error → Result A

abbrev pub is_ok {ℓ} : {A : Type ℓ} → Result A → Bool
is_ok (ok a) = true
is_ok (err e) = false

-- `fmt.Errorf("…: %w", err)`
abbrev pub wrap {ℓ} : {A : Type ℓ} → (Error → Error) → Result A → Result A
wrap message (ok a) = ok a
wrap message (err cause) = err (message cause)

-- `if b { return e }`
abbrev pub fail_if : Bool → Error → Result (Unit {0})
fail_if true e = err e
fail_if false e = ok tt

-- `if err != nil { return err }`, and the rest of the function.
infixl 5 ◌>>=◌ ◌>>◌
abbrev pub ◌>>=◌ {ℓ κ} : {A : Type ℓ} {B : Type κ} → Result A → (A → Result B) → Result B
err reason >>= rest = err reason
ok value >>= rest = rest value

abbrev pub ◌>>◌ {κ} : {B : Type κ} → Result (Unit {0}) → Result B → Result B
first >> rest = first >>= λ done. rest

pub ok-injective {ℓ} : {A : Type ℓ} {a b : A} → ok a ≡ ok b → a ≡ b
ok-injective h = cc

pub Result-cases {ℓ} :
    {A : Type ℓ} (r : Result A) → ((a : A) × (r ≡ ok a)) ⊎ ((e : Error) × (r ≡ err e))
Result-cases (ok a) = inl (a, refl)
Result-cases (err e) = inr (e, refl)

pub >>=-eq-ok {ℓ κ} :
    {A : Type ℓ} {B : Type κ} (m : Result A) (rest : A → Result B) {b : B}
    → (m >>= rest) ≡ ok b
    → (a : A) × (m ≡ ok a) × (rest a ≡ ok b)
>>=-eq-ok (err reason) rest h = cc
>>=-eq-ok (ok value) rest h = (value, refl, h)
