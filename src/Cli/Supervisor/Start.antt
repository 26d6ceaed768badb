-- ===== src/Cli/Supervisor/Start.antt =====
-- cmd/dev-connect/main.go: `startTunnelSupervisor`, which starts the program itself as a process of
-- its own and waits until that has written its ready file.
use dev_connect.Prelude.{Option, none, some, List, if◌then◌else◌, ℤ}
use dev_connect.Text.{Text, codes, equal}
use dev_connect.Text.Paths.{join_path}
use dev_connect.Result.{
  err, mkdir_failed, no_own_executable, open_log_failed, start_supervisor_failed,
}
use dev_connect.World.{World, mkdir_all, open_append}
use dev_connect.World.Steps.{M, ◌>>=◌, ◌>>◌, act, lift}
use dev_connect.Config.{Cluster}
use dev_connect.Connect.{Prepared, found}
use dev_connect.Kubectl.Process.{Exec}
use dev_connect.Tunnel.{Started}
use dev_connect.Cli.{CliOptions}
use dev_connect.Cli.Arguments.{supervisor_args}
use dev_connect.Cli.Host.{Host, start_tunnel}
use dev_connect.Cli.Supervisor.{Wait, wait_until_ready}

-- A process that was started, and what its parent then sees.
pub record Child : Type 0 where
  pub pid : ℤ
  pub events : Wait

unfoldable pub ready_file : Text → Text
unfolding join_path
ready_file session_dir = join_path session_dir (codes "supervisor.ready")

-- `spawn` starts a detached process with its arguments; `none` is an error.
module _ (exec : Exec World) (h : Host) (o : CliOptions)
    (spawn : Text → List Text → World → Option Child) where
  abbrev wait_for : Text → Option Child → M Started
  wait_for file none w = (err start_supervisor_failed, w)
  wait_for file (some child) w = wait_until_ready file child.pid child.events

  unfoldable pub spawn_supervisor : Text → Prepared → M Started
  unfolding mkdir_all open_append join_path supervisor_args wait_until_ready ready_file
  spawn_supervisor config_path p = do
    executable ← lift (found no_own_executable h.executable)
    act (λ w. mkdir_all w p.session_dir) (mkdir_failed p.session_dir)
    act (λ w. open_append w (join_path p.session_dir (codes "supervisor.log")) 0o600)
        (open_log_failed (join_path p.session_dir (codes "supervisor.log")))
    λ w.
        wait_for (ready_file p.session_dir)
          (spawn executable
            (supervisor_args o config_path p.target_name p.session_dir (ready_file p.session_dir))
            w)
          w

  -- With `DEV_CONNECT_TEST_INLINE_TUNNEL=1` the tunnel is started without a supervisor.
  unfoldable pub start_tunnel_supervisor : Text → Cluster → Prepared → M Started
  unfolding equal start_tunnel spawn_supervisor
  start_tunnel_supervisor config_path cluster p =
      if equal (h.getenv (codes "DEV_CONNECT_TEST_INLINE_TUNNEL")) (codes "1")
      then start_tunnel exec h o cluster p
      else spawn_supervisor config_path p
