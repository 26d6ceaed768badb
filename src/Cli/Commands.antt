-- ===== src/Cli/Commands.antt =====
-- cmd/dev-connect/main.go: the commands that have a session, with what they log and print. The
-- registration of the commands is cobra's.
use dev_connect.Prelude.{false, ◌≡◌, ap}
use dev_connect.Text.{Text, codes}
use dev_connect.Result.{Result, ok, err}
use dev_connect.World.{World, Call}
use dev_connect.World.Steps.{M, ◌>>=◌, lift, pure}
use dev_connect.Session.{State, Time}
use dev_connect.Session.Store.{Codec, path}
use dev_connect.Output.{Response}
use dev_connect.Connect.{Options}
use dev_connect.Cli.{CliOptions}
use dev_connect.Cli.Sessions.{disconnect}
use dev_connect.Cli.Status.{status, disconnected, status_response, status-disconnect}
use dev_connect.Cli.Announce.{Console, announce}
use dev_connect.Cli.Connecting.{Programs, connect}

module _ {S : Type 0} (con : Console S) (o : CliOptions) where
  abbrev pub end_with : Text → Result Response × World → S → Result (Unit {0}) × (World × S)
  end_with name (r, w) s = let a = announce con o name r s in (a.0, (w, a.1))

  -- A command, which fails where its directory is not known.
  unfoldable pub run_command :
      Text → Result Text → (Text → M Response) → World × S → Result (Unit {0}) × (World × S)
  unfolding announce
  run_command name dir body (w, s) = end_with name ((lift dir >>= body) w) s

  abbrev answer_disconnected : Result (Unit {0}) → Result Response
  answer_disconnected (ok t) = ok disconnected
  answer_disconnected (err e) = err e

  abbrev pub disconnect_body : Codec → Text → M Response
  disconnect_body c dir w = (answer_disconnected (disconnect c dir w).0, (disconnect c dir w).1)

  unfoldable pub disconnect_command :
      Codec → Result Text → World × S → Result (Unit {0}) × (World × S)
  unfolding run_command disconnect
  disconnect_command c dir = run_command (codes "disconnect") dir (disconnect_body c)

  unfoldable pub status_command :
      (Time → Text) → Codec → Result Text → World × S → Result (Unit {0}) × (World × S)
  unfolding run_command status
  status_command uptime c dir = run_command (codes "status") dir (status uptime c)

  -- The name and the port are those of the options and of the session that was prepared.
  unfoldable pub connect_response : (Time → Text) → Text → State → Response
  unfolding status_response
  connect_response uptime target s = record (status_response uptime (codes "prepared") s) {
    server = target;
    local_port = s.local_port;
  }

  abbrev pub connect_body :
      (Time → Text) → Codec → Programs → Result Text → Result (Text → Options) → M Response
  connect_body uptime c programs dir options = lift options >>= λ f. lift dir >>= λ d.
      connect c programs o (f d) >>= λ state. pure (connect_response uptime (f d).target_name state)

  -- `options` is what the configuration, the flags and the environment make of the directory of the
  -- session, or the error of `loadConfig`, which comes first.
  unfoldable pub connect_command :
      (Time → Text)
      → Codec
      → Programs
      → Result Text
      → Result (Text → Options)
      → World × S
      → Result (Unit {0}) × (World × S)
  unfolding announce connect connect_response
  connect_command uptime c programs dir options (w, s) =
      end_with (codes "connect") (connect_body uptime c programs dir options w) s

  ended_well :
      (name : Text) (x : Result (Unit {0}) × World) (s : S) {t : Unit {0}} {w' : World} {s' : S}
      → end_with name (answer_disconnected x.0, x.1) s ≡ (ok t, (w', s'))
      → x ≡ (ok tt, w')
  unfolding announce
  ended_well name (ok a, u) s h = λ i. (ok tt, (h i).1.0)
  ended_well name (err e, u) s h = cc

  disconnected_answer :
      (c : Codec) (dir : Text) (w : World) (s : S) {t : Unit {0}} {w' : World} {s' : S}
      → disconnect_command c (ok dir) (w, s) ≡ (ok t, (w', s'))
      → disconnect c dir w ≡ (ok tt, w')
  unfolding disconnect_command run_command
  disconnected_answer c dir w s h = ended_well (codes "disconnect") (disconnect c dir w) s h

  -- After a `disconnect` that has succeeded the command `status` logs and prints that there is no
  -- session, unless the file of the session cannot be read.
  pub status_command-disconnect_command :
      (uptime : Time → Text) (c : Codec) (dir : Text) (w : World) (s : S) {t : Unit {0}}
      {w' : World} {s' : S}
      → disconnect_command c (ok dir) (w, s) ≡ (ok t, (w', s'))
      → w'.refuses Call.to_read (path dir) ≡ false
      → status_command uptime c (ok dir) (w', s')
        ≡ end_with (codes "status") (ok disconnected, w') s'
  unfolding status_command run_command
  status_command-disconnect_command uptime c dir w s {t} {w'} {s'} h readable =
      ap (λ (x : Result Response × World). end_with (codes "status") x s')
        (status-disconnect uptime c dir w (disconnected_answer c dir w s h) readable)
