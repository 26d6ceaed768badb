-- ===== src/Cli/Status.antt =====
-- cmd/dev-connect/main.go: the status of the session. `uptime` stands for the time since the start,
-- rounded and printed.
use dev_connect.Prelude.{true, false, Option, none, some, [], ◌≡◌, refl, ap, if◌then◌else◌, ◌==◌}
use dev_connect.Text.{Text, codes}
use dev_connect.Result.{Result, ok, err}
use dev_connect.World.{World, Call}
use dev_connect.Output.{Response, empty_response}
use dev_connect.World.Steps.{◌>>=◌, lift}
use dev_connect.Session.{State, Time}
use dev_connect.Session.Store.{Codec, load, save, path, has_utf8}
use dev_connect.Session.Persistence.{load-save}
use dev_connect.Session.Process.{is_stale, process_exists}
use dev_connect.Cli.Sessions.{stored, disconnect, load-disconnect}

abbrev pub disconnected : Response
disconnected = record empty_response { status = codes "disconnected" }

module _ (uptime : Time → Text) where
  unfoldable pub status_response : Text → State → Response
  status_response status s = record empty_response {
    status = status;
    server = s.target;
    session_id = s.session_id;
    local_port = s.local_port;
    kubernetes_context = s.kubernetes_context;
    namespace = s.namespace;
    gateway = s.gateway;
    reconnect = some s.reconnect;
    uptime = if s.started_at == 0 then [] else uptime s.started_at;
  }

  abbrev pub judge_status : World → Option State → Response
  judge_status w none = disconnected
  judge_status w (some s) =
      status_response (if is_stale s (process_exists w) then codes "stale" else codes "connected") s

  abbrev pub answer : World → Result State → Result Response × World
  answer w r = (lift (stored r) >>= λ s v. (ok (judge_status w s), v)) w

  unfoldable pub status : Codec → Text → World → Result Response × World
  unfolding load is_stale process_exists status_response
  status c dir w = answer w (load c dir w).0

  answer_keeps :
      (f : Option State → Response) (r : Result (Option State)) (w : World)
      → ((lift r >>= λ s v. (ok (f s), v)) w).1 ≡ w
  answer_keeps f (ok s) w = refl
  answer_keeps f (err e) w = refl

  -- Asking for the status changes nothing.
  pub status_keeps : (c : Codec) (dir : Text) (w : World) → (status c dir w).1 ≡ w
  unfolding status
  status_keeps c dir w = answer_keeps (judge_status w) (stored (load c dir w).0) w

  -- After a successful `disconnect` the status is `disconnected`, unless the session's file cannot
  -- be read.
  pub status-disconnect :
      (c : Codec) (dir : Text) (w : World) {t : Unit {0}} {w' : World}
      → disconnect c dir w ≡ (ok t, w')
      → w'.refuses Call.to_read (path dir) ≡ false
      → status c dir w' ≡ (ok disconnected, w')
  unfolding status
  status-disconnect c dir w {t} {w'} h r =
      ap (λ (x : Result State × World). answer w' x.0) (load-disconnect c dir w h r)

  -- After a session was saved the status names it, and says whether its process still runs, where
  -- its texts are valid UTF-8 and the session's file can be read.
  pub status-save :
      (c : Codec) (dir : Text) (s : State) (w : World) {t : Unit {0}} {w' : World}
      → save c dir s w ≡ (ok t, w')
      → has_utf8 s ≡ true
      → w.refuses Call.to_read (path dir) ≡ false
      → status c dir w' ≡ (
        ok (
            status_response
              (if is_stale s (process_exists w') then codes "stale" else codes "connected")
              s),
        w',
      )
  unfolding status
  status-save c dir s w {t} {w'} h u r =
      ap (λ (x : Result State × World). answer w' x.0) (load-save c dir s w h u r)
