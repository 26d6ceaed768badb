-- ===== src/Examples/Sessions.antt =====
-- Runs of internal/session.
use dev_connect.Prelude.{true, ◌≡◌, refl}
use dev_connect.Text.{codes, equal}
use dev_connect.Result.{ok, err, session_locked}
use dev_connect.World.{World}
use dev_connect.Session.{State}
use dev_connect.Session.Store.{save, load, path}
use dev_connect.Session.Persistence.{load-save}
use dev_connect.Session.Lock.{Lock, acquire_lock, acquire_lock-acquire_lock}
use dev_connect.Examples.Machine.{fresh, state}
use dev_connect.Examples.Json.{codec}

load-save_example :
    load codec (codes "/s") (save codec (codes "/s") state fresh).1
    ≡ (ok state, (save codec (codes "/s") state fresh).1)
unfolding save equal path
load-save_example = load-save codec (codes "/s") state fresh refl refl refl

abbrev with_password : State
with_password = record state { password = codes "p" }

abbrev locked : World
locked = (acquire_lock (codes "/l") fresh).1

abbrev lock : Lock
lock = record { path = codes "/l"; is_open = true }

acquire_lock-acquire_lock_example : acquire_lock (codes "/l") locked ≡ (err session_locked, locked)
unfolding acquire_lock
acquire_lock-acquire_lock_example = acquire_lock-acquire_lock (codes "/l") fresh {l = lock} refl
