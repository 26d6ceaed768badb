-- ===== src/Cli/Execute/Success.antt =====
-- cmd/dev-connect/main.go: the command `connect`, from the flags to its answer, when it succeeds.
use dev_connect.Prelude.{◌≡◌, refl}
use dev_connect.Text.{Text, codes}
use dev_connect.Result.{Result, ok, err}
use dev_connect.World.{World}
use dev_connect.World.Steps.{pure}
use dev_connect.World.Frame.{>>=-eq-ok}
use dev_connect.Output.{Response}
use dev_connect.Config.Load.{Loaded}
use dev_connect.Cli.{CliOptions, validate_options}
use dev_connect.Cli.Host.{load_config}
use dev_connect.Cli.Announce.{Console, announce}
use dev_connect.Cli.Commands.{end_with, connect_body, connect_command, connect_response}
use dev_connect.Cli.Connecting.{connect}
use dev_connect.Cli.Connecting.Run.{programs_of, Connected, connect-Connected}
use dev_connect.Cli.Execute.{
  Setting, connecting, checked, dispatch, execute, session_dir_for, connect_options, options_of,
  loaded_path,
}

module _ {S : Type 0} (con : Console S) (o : CliOptions) where
  -- A command that has succeeded has had an answer.
  end_with-eq-ok :
      (name : Text) (x : Result Response × World) (s : S) {t : Unit {0}} {w' : World} {s' : S}
      → end_with con o name x s ≡ (ok t, (w', s'))
      → (r : Response) × (x ≡ (ok r, w'))
  unfolding announce
  end_with-eq-ok name (ok r, u) s h = (r, λ i. (ok r, (h i).1.0))
  end_with-eq-ok name (err e, u) s h = cc

module _ {S : Type 0} (con : Console S) (o : CliOptions) (v : Setting) (target : Text) where
  -- The way of a command `connect` that succeeds, whose options were accepted.
  pub record Succeeded (w : World) : Type 0 where
    pub accepted : validate_options o ≡ ok tt
    pub loaded : Loaded
    pub dir : Text
    pub was_loaded : load_config v.parse_yaml v.platform v.host o w ≡ ok loaded
    pub was_given : session_dir_for v ≡ ok dir
    pub connected :
        Connected v.codec v.system v.host o loaded.path (connect_options v o target loaded dir) w

  connect_body-eq-ok :
      (loaded : Result Loaded) (dir : Result Text) (w : World) {r : Response} {w' : World}
      → connect_body con o v.uptime v.codec
          (programs_of v.system v.host o (loaded_path con o v loaded))
          dir
          (options_of con o v target loaded)
          w
        ≡ (ok r, w')
      → (l : Loaded) × (d : Text) × (loaded ≡ ok l)
        × (dir ≡ ok d)
        × Connected v.codec v.system v.host o l.path (connect_options v o target l d) w
  connect_body-eq-ok (err e) dir w h = cc
  connect_body-eq-ok (ok l) (err e) w h = cc
  connect_body-eq-ok (ok l) (ok d) w h =
      let programs = programs_of v.system v.host o l.path in
      let (state, u, done, _) =
        >>=-eq-ok (connect v.codec programs o (connect_options v o target l d))
          (λ state.
            pure
              (connect_response con o v.uptime (connect_options v o target l d).target_name state))
          w h in
      (
        l,
        d,
        refl,
        refl,
        connect-Connected v.codec v.system v.host o l.path (connect_options v o target l d) w done,
      )

  checked-eq-ok :
      (r : Result (Unit {0})) (w : World) (s : S) {t : Unit {0}} {w' : World} {s' : S}
      → checked con o v r (connecting target) (w, s) ≡ (ok t, (w', s'))
      → (r ≡ ok tt) × (dispatch con o v (connecting target) (w, s) ≡ (ok t, (w', s')))
  checked-eq-ok (ok t) w s h = (refl, h)
  checked-eq-ok (err e) w s h = cc

  -- A command `connect` that succeeds was given options that are accepted, has loaded a
  -- configuration and found the session's directory, and with these, and with the options that come
  -- from the flags and the environment, it has found no session in use, has prepared one, was
  -- allowed by kubectl to forward its port, and has started the tunnel.
  pub execute-Succeeded :
      (w : World) (s : S) {t : Unit {0}} {w' : World} {s' : S}
      → execute con o v (connecting target) (w, s) ≡ (ok t, (w', s'))
      → Succeeded w
  unfolding execute dispatch connect_command
  execute-Succeeded w s h =
      let loaded = load_config v.parse_yaml v.platform v.host o w in
      let programs = programs_of v.system v.host o (loaded_path con o v loaded) in
      let (is_accepted, dispatched) = checked-eq-ok (validate_options o) w s h in
      let (r, answered) =
        end_with-eq-ok con o (codes "connect")
          (connect_body con o v.uptime v.codec programs (session_dir_for v)
            (options_of con o v target loaded) w)
          s dispatched in
      let (l, d, was_loaded, was_given, connected) =
        connect_body-eq-ok loaded (session_dir_for v) w answered in
      record {
        accepted = is_accepted;
        loaded = l;
        dir = d;
        was_loaded = was_loaded;
        was_given = was_given;
        connected = connected;
      }
