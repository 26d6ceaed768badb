-- ===== src/Cli/Connecting/Failure.antt =====
-- cmd/dev-connect/main.go: what a `connect` that fails leaves behind.
use dev_connect.Prelude.{
  Bool, true, false, none, ◌≡◌, ◌⊎◌, inl, inr, refl, ap, subst, if◌then◌else◌, is_positive,
  Bool-cases,
}
use dev_connect.Text.{Text}
use dev_connect.Result.{Error, Result, ok, err, Result-cases, session_locked}
use dev_connect.World.{World, Call, remove, update_self}
use dev_connect.World.Steps.{M, ◌>>=◌, lift, pure}
use dev_connect.Text.{codes}
use dev_connect.Text.Paths.{join_path}
use dev_connect.SshConfig.UserConfig.{upsert_managed_block}
use dev_connect.Vscode.UserData.{prepare_user_data_dir}
use dev_connect.Config.{Cluster, use_isolated_user_data_dir}
use dev_connect.Session.{State}
use dev_connect.Session.Store.{Codec, clear, path, load, save}
use dev_connect.Session.Process.{is_stale, process_exists}
use dev_connect.Connect.{Options, Prepared}
use dev_connect.Tunnel.{Started}
use dev_connect.Cli.{CliOptions}
use dev_connect.SshConfig.Write.{cleanup}
use dev_connect.Cli.Sessions.{cleanup_session_artifacts, ensure_no_active_session_locked}
use dev_connect.Cli.Connecting.{
  or_undo, Programs, user_config_options, user_ssh_config_path, discard_files, discard_artifacts,
  record_process, register_user_config, manage_user_config, set_up_remote, register_user_data,
  isolate_user_data, launch_code, finish_connect, connect,
}

-- The session's file is gone, unless the system refuses to remove it.
abbrev pub IsDiscarded : Text → World → Type 0
IsDiscarded dir w = (w.file (path dir) ≡ none) ⊎ (w.refuses Call.to_remove (path dir) ≡ true)

clear-IsDiscarded : (dir : Text) (w : World) → IsDiscarded dir (clear dir w).1
unfolding clear remove
clear-IsDiscarded dir w = elim (Bool-cases (w.refuses Call.to_remove (path dir))) [
  | inl e ↦ rw e (inr e)
  | inr e ↦ rw e (inl (update_self w.file (path dir) none))
]

module _ (dir : Text) where
  -- A step that fails has discarded the session.
  abbrev Discards : {A : Type 0} → M A → Type 0
  Discards {A} m = (w : World) (e : Error) (w' : World) → m w ≡ (err e, w') → IsDiscarded dir w'

  pure-Discards : {A : Type 0} (a : A) → Discards (pure a)
  pure-Discards a w e w' h = cc

  bind_failed :
      {A B : Type 0} (m : M A) (f : A → M B) (w : World) {e : Error} {w' : World}
      → (m >>= f) w ≡ (err e, w')
      → Discards m
      → ((a : A) (u : World) → f a u ≡ (err e, w') → IsDiscarded dir w')
      → IsDiscarded dir w'
  bind_failed {A} {B} m f w {e} {w'} h hm hf = elim (Result-cases (m w).0) [
    | inl (a, at) ↦ hf a (m w).1 (rw at at h)
    | inr (x, at) ↦
        let same : ◌≡◌ {A = Result B × World} (err x, (m w).1) (err e, w') = rw at at h in
        subst (λ u. IsDiscarded dir u) (ap (λ (r : Result B × World). r.1) same)
          (hm w x (m w).1 (λ i. (at i, (m w).1)))
  ]

  or_undo-Discards :
      {A : Type 0} (m : M A) (undo : M (Unit {0}))
      → ((w : World) → IsDiscarded dir (undo w).1)
      → Discards (or_undo m undo)
  or_undo-Discards {A} m undo hu w e w' h = elim (Result-cases (m w).0) [
    | inl (a, at) ↦
        let no : ◌≡◌ {A = Result A × World} (ok a, (m w).1) (err e, w') = rw at at h in cc
    | inr (x, at) ↦
        let same : ◌≡◌ {A = Result A × World} (err x, (undo (m w).1).1) (err e, w') = rw at at h in
        subst (λ u. IsDiscarded dir u) (ap (λ (r : Result A × World). r.1) same) (hu (m w).1)
  ]

  if-Discards :
      {A : Type 0} (b : Bool) (m n : M A) → Discards m → Discards n → Discards (if b then m else n)
  if-Discards true m n hm hn = hm
  if-Discards false m n hm hn = hn

module _ (c : Codec) (programs : Programs) (cli : CliOptions) (o : Options) (p : Prepared) where
  abbrev dir : Text
  dir = p.session_dir

  discard_files-IsDiscarded : (w : World) → IsDiscarded dir (discard_files c programs cli o p w).1
  unfolding discard_files
  discard_files-IsDiscarded w = clear-IsDiscarded dir (cleanup p.ssh_files w).1

  discard_artifacts-IsDiscarded :
      (s : State) (w : World) → IsDiscarded dir (discard_artifacts c programs cli o dir s w).1
  unfolding discard_artifacts
  discard_artifacts-IsDiscarded s w = clear-IsDiscarded dir (cleanup_session_artifacts s w).1

  undone :
      {A : Type 0} (s : State) (m : M A)
      → Discards dir (or_undo m (discard_artifacts c programs cli o dir s))
  undone s m =
      or_undo-Discards dir m (discard_artifacts c programs cli o dir s)
        (discard_artifacts-IsDiscarded s)

  undone_files :
      {A : Type 0} (m : M A) → Discards dir (or_undo m (discard_files c programs cli o p))
  undone_files m =
      or_undo-Discards dir m (discard_files c programs cli o p) discard_files-IsDiscarded

  abbrev undoing : {A : Type 0} → State → M A → M A
  undoing s m = or_undo m (discard_artifacts c programs cli o dir s)

  register_user_config-Discards :
      (s : State) (config_path : Text)
      → Discards dir (register_user_config c programs cli o p s config_path)
  unfolding register_user_config
  register_user_config-Discards s config_path w e w' h =
      let s' : State = record s { user_ssh_config_path = config_path } in
      bind_failed dir
        (undoing s (upsert_managed_block (user_config_options o.config p config_path))) _ w h
        (undone s _)
        λ _ u h1.
          bind_failed dir (undoing s' (save c dir s')) _ u h1 (undone s' _)
            λ _ v h2. pure-Discards dir s' v e w' h2

  manage_user_config-Discards : (s : State) → Discards dir (manage_user_config c programs cli o p s)
  unfolding manage_user_config
  manage_user_config-Discards s w e w' h = elim (Bool-cases o.config.ssh.manage_user_config) [
    | inr off ↦ pure-Discards dir s w e w' (rw (off, manage_user_config) at h)
    | inl on ↦
        let config_path =
          user_ssh_config_path programs.default_user_config_path o.config.ssh.user_config_path in
        bind_failed dir (undoing s (lift config_path)) (register_user_config c programs cli o p s) w
          (rw (on, manage_user_config) at h) (undone s _)
          λ q u h1. register_user_config-Discards s q u e w' h1
  ]

  set_up_remote-Discards : (s : State) → Discards dir (set_up_remote c programs cli o p s)
  unfolding set_up_remote
  set_up_remote-Discards s =
      let run = programs.configure_remote o.config o.target_name s.ssh_config_path in
      if-Discards dir o.config.vscode.remote_setup.enabled (undoing s run) (pure tt) (undone s run)
        (pure-Discards dir tt)

  register_user_data-Discards :
      (s : State) (q : Text) → Discards dir (register_user_data c programs cli o p s q)
  unfolding register_user_data
  register_user_data-Discards s q w e w' h =
      let s' : State = record s { vscode_user_data_dir = q } in
      bind_failed dir (undoing s (prepare_user_data_dir programs.marshal q s.ssh_config_path)) _ w h
        (undone s _)
        λ _ u h1.
          bind_failed dir (undoing s' (save c dir s')) _ u h1 (undone s' _)
            λ _ v h2. pure-Discards dir s' v e w' h2

  isolate_user_data-Discards : (s : State) → Discards dir (isolate_user_data c programs cli o p s)
  unfolding isolate_user_data
  isolate_user_data-Discards s w e w' h =
      elim (Bool-cases (use_isolated_user_data_dir o.config.vscode)) [
        | inr off ↦ pure-Discards dir s w e w' (rw (off, isolate_user_data) at h)
        | inl on ↦
            register_user_data-Discards s (join_path dir (codes "vscode-user-data")) w e w'
              (rw (on, isolate_user_data) at h)
      ]

  launch_code-Discards : (s : State) → Discards dir (launch_code c programs cli o p s)
  unfolding launch_code
  launch_code-Discards s w e w' h =
      bind_failed dir (set_up_remote c programs cli o p s) _ w h (set_up_remote-Discards s)
        λ _ u h1.
          bind_failed dir (isolate_user_data c programs cli o p s) _ u h1
            (isolate_user_data-Discards s)
            λ s' v h2.
              bind_failed dir
                (undoing s' (programs.launch o.config o.target_name s'.vscode_user_data_dir)) _ v h2
                (undone s' _) λ _ x h3. pure-Discards dir s' x e w' h3

  record_process-Discards : (t : Started) → Discards dir (record_process c programs cli o p t)
  unfolding record_process
  record_process-Discards t w e w' h = elim (Bool-cases (is_positive t.pid)) [
    | inr none_ ↦ pure-Discards dir p.state w e w' (rw (none_, record_process) at h)
    | inl some_ ↦
        let s : State = record p.state { port_forward_pid = t.pid } in
        bind_failed dir (or_undo (save c dir s) (discard_files c programs cli o p)) _ w
          (rw (some_, record_process) at h) (undone_files _) λ _ u h1. pure-Discards dir s u e w' h1
  ]

  -- Wherever `connect` fails after `Prepare`, in the preflight, in the supervisor, in a file or in
  -- VS Code, no session is left: its file is gone, unless the system refuses to remove it. This
  -- holds whatever the programs do that it runs.
  pub finish_connect_failed :
      (cluster : Cluster) (w : World) {e : Error} {w' : World}
      → finish_connect c programs cli o cluster p w ≡ (err e, w')
      → IsDiscarded p.session_dir w'
  unfolding finish_connect
  finish_connect_failed cluster w {e} {w'} h =
      let discard = discard_files c programs cli o p in
      bind_failed dir (or_undo (programs.preflight cluster p) discard) _ w h (undone_files _)
        λ _ u h1.
          bind_failed dir (or_undo (programs.start_supervisor cluster p) discard) _ u h1
            (undone_files _)
            λ t v h2.
              bind_failed dir (record_process c programs cli o p t) _ v h2
                (record_process-Discards t)
                λ s x h3.
                  bind_failed dir (manage_user_config c programs cli o p s) _ x h3
                    (manage_user_config-Discards s)
                    λ s' y h4.
                      if-Discards dir cli.no_code (pure s') (launch_code c programs cli o p s')
                        (pure-Discards dir s') (launch_code-Discards s') y e w' h4

-- With a stored session that is not stale, one whose process runs or has not been started,
-- `connect` fails with the error for a locked session and changes nothing.
pub connect_locked :
    (c : Codec) (programs : Programs) (cli : CliOptions) (o : Options) (w : World) {s : State}
    {u : World}
    → load c o.session_dir w ≡ (ok s, u)
    → is_stale s (process_exists w) ≡ false
    → connect c programs cli o w ≡ (err session_locked, w)
unfolding connect
connect_locked c programs cli o w h live =
    unfold connect in rw (ensure_no_active_session_locked c o.session_dir w h live) refl
