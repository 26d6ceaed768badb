-- ===== src/Kubectl/Process/Channel/Judged.antt =====
-- internal/kubectl/runner.go: what the state of the loop of `RunUntilReady` says.
use dev_connect.Prelude.{Bool, true, false, ◌||◌, Option, List, [], ◌∷◌, ◌++◌, ◌≡◌, refl, arith}
use dev_connect.Text.{Text}
use dev_connect.Kubectl.Process.Exit.{WaitError}
use dev_connect.Kubectl.Process.Pipes.{Captured, ended_ready, ended_exit, ended_canceled}
use dev_connect.Kubectl.Process.Logs.{any_ready}
use dev_connect.Kubectl.Process.Channel.{
  ProcessState, running, killed, over, stopped, is_running, LoopState, looping, returned_ready,
  returned_exit, returned_canceled,
}

pub stopped_idle : (p : ProcessState) → is_running (stopped p) ≡ false
stopped_idle running = refl
stopped_idle killed = refl
stopped_idle (over e) = refl

module _ (ready : Text → Bool) where
  -- What the state of the loop says of the lines that were captured and of the process.
  abbrev pub Judged : LoopState → ProcessState → Captured → List Text → List Text → Type 0
  Judged looping p c outs errs = (any_ready ready outs ≡ false) × (any_ready ready errs ≡ false)
  Judged (returned_ready e) p c outs errs =
      ((any_ready ready outs || any_ready ready errs) ≡ true)
      × (is_running p ≡ false)
      × (e ≡ ended_ready c)
  Judged (returned_exit e) p c outs errs =
      (x : Option WaitError) × (any_ready ready outs ≡ false)
      × (any_ready ready errs ≡ false)
      × (p ≡ over x)
      × (e ≡ ended_exit c x)
  Judged (returned_canceled e) p c outs errs =
      (any_ready ready outs ≡ false)
      × (any_ready ready errs ≡ false)
      × (is_running p ≡ false)
      × (e ≡ ended_canceled c)

  pub any_ready-append :
      (ts : List Text) (t : Text) → any_ready ready (ts ++ t ∷ []) ≡ (any_ready ready ts || ready t)
  unfolding any_ready
  any_ready-append [] t = ground arith
  any_ready-append (u ∷ ts) t = ground (arith, any_ready-append ts t)

  -- The end of the process changes nothing that was judged.
  pub Judged-finish :
      (l : LoopState) (p : ProcessState) (e : Option WaitError) (c : Captured)
      (outs errs : List Text)
      → p ≡ running
      → Judged l p c outs errs
      → Judged l (over e) c outs errs
  Judged-finish looping p e c outs errs h j = j
  Judged-finish (returned_ready x) p e c outs errs h (seen, _, same) = (seen, refl, same)
  Judged-finish (returned_exit x) p e c outs errs h (y, _, _, k, _) = cc
  Judged-finish (returned_canceled x) p e c outs errs h (quiet, still, _, same) =
      (quiet, still, refl, same)

  pub looping-quiet :
      (l : LoopState) (p : ProcessState) (c : Captured) (outs errs : List Text)
      → l ≡ looping
      → Judged l p c outs errs
      → (any_ready ready outs ≡ false) × (any_ready ready errs ≡ false)
  looping-quiet looping p c outs errs h j = j
  looping-quiet (returned_ready x) p c outs errs h j = cc
  looping-quiet (returned_exit x) p c outs errs h j = cc
  looping-quiet (returned_canceled x) p c outs errs h j = cc
