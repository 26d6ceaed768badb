-- ===== src/Cli/Supervisor.antt =====
-- cmd/dev-connect/main.go: the supervisor that keeps the port-forward running, and the wait of the
-- command that has started it.
pub mod Session
pub mod Bounds
pub mod Start
pub mod PortForward
use dev_connect.Prelude.{
  ℕ, zero, suc, ◌*◌, ◌^◌, Bool, true, false, not, ◌&&◌, Option, none, some, List, [], ◌∷◌, ◌≡◌,
  refl, sym, ap, ◌∙◌, arith, if◌then◌else◌, ltb, ℤ, is_some, Bool-cases, inl, inr, length,
}
use dev_connect.Text.{Text}
use dev_connect.Result.{Error, Result, ok, err, ok-injective, canceled, supervisor_exited}
use dev_connect.World.{World}
use dev_connect.Session.Process.{terminate_process}
use dev_connect.Tunnel.{Started}
use native.Mathlib.Nat.{pow-succ'}

-- How one port-forward ends: with an error or without one, while the context is canceled or not;
-- and whether it is canceled in the pause behind it.
pub record Exit : Type 0 where
  pub error : Option Error
  pub is_canceled : Bool
  pub is_canceled_in_pause : Bool

-- The pause after the next one, in seconds.
unfoldable pub next_backoff : ℕ → ℕ
next_backoff backoff =
    if ltb backoff 30 then (if ltb 30 (backoff * 2) then 30 else backoff * 2) else backoff

-- The pauses that were begun, and the error that the loop ends with, if it ends.
pub record Supervised : Type 0 where
  pub pauses : List ℕ
  pub ended : Option (Option Error)

abbrev after_pause : ℕ → Supervised → Supervised
after_pause backoff r = record r { pauses = backoff ∷ r.pauses }

-- The loop over the port-forwards that there are; after the last one of the list it goes on.
unfoldable pub supervise : Bool → ℕ → List Exit → Supervised
unfolding next_backoff
supervise reconnect backoff [] = record { pauses = []; ended = none }
supervise reconnect backoff (x ∷ xs) =
    let rest = supervise reconnect (next_backoff backoff) xs in
    if x.is_canceled
    then record { pauses = []; ended = some (some canceled) }
    else if not reconnect
    then record { pauses = []; ended = some x.error }
    else if x.is_canceled_in_pause
    then record { pauses = backoff ∷ []; ended = some (some canceled) }
    else after_pause backoff rest

-- The loop of `runTunnelSupervisor`: it begins with one second.
unfoldable pub run_tunnel_supervisor : Bool → Bool → List Exit → Supervised
unfolding supervise
run_tunnel_supervisor session_reconnect no_reconnect xs =
    supervise (session_reconnect && not no_reconnect) 1 xs

-- 2 ^ n seconds, and 30 at most.
abbrev pub capped : ℕ → ℕ
capped n = if ltb 30 (2 ^ n) then 30 else 2 ^ n

abbrev pub pauses_from : ℕ → ℕ → List ℕ
pauses_from n zero = []
pauses_from n (suc k) = capped n ∷ pauses_from (suc n) k

next_backoff-capped : (n : ℕ) → next_backoff (capped n) ≡ capped (suc n)
unfolding next_backoff
next_backoff-capped n = ground (arith, pow-succ' 2 n)

-- Nothing cancels the supervisor.
abbrev pub is_undisturbed : List Exit → Bool
is_undisturbed [] = true
is_undisturbed (x ∷ xs) = not x.is_canceled && (not x.is_canceled_in_pause && is_undisturbed xs)

supervise-pauses_from :
    (n : ℕ) (xs : List Exit)
    → is_undisturbed xs ≡ true
    → supervise true (capped n) xs ≡ record { pauses = pauses_from n (length xs); ended = none }
unfolding supervise
supervise-pauses_from n [] h = refl
supervise-pauses_from n (x ∷ xs) h =
    let go : x.is_canceled ≡ false = ground arith in
    let go_on : x.is_canceled_in_pause ≡ false = ground arith in
    let rest : is_undisturbed xs ≡ true = ground arith in
    rw (go, go_on, next_backoff-capped n, supervise-pauses_from (suc n) xs rest) refl

-- With reconnecting the supervisor never gives up: however many port-forwards have ended, with
-- errors or without, it goes on, and the pause after the nth of them, counted from 0, is 2 ^ n
-- seconds, and 30 at most. Nothing cancels it.
pub run_tunnel_supervisor-pauses_from :
    (xs : List Exit)
    → is_undisturbed xs ≡ true
    → run_tunnel_supervisor true false xs
      ≡ record { pauses = pauses_from 0 (length xs); ended = none }
unfolding run_tunnel_supervisor
run_tunnel_supervisor-pauses_from xs h = supervise-pauses_from 0 xs h

-- What the command that waits for the supervisor sees, one after the other: a tick of its clock,
-- the end of the supervisor, or its own deadline. Each comes with the machine at that time.
pub data Wait : Type 0 where
  tick : World → Wait → Wait
  exited : Option Error → World → Wait
  deadline : World → Wait

unfoldable pub wait_until_ready : Text → ℤ → Wait → Result Started × World
unfolding terminate_process
wait_until_ready ready_file pid (tick w more) =
    let rest = wait_until_ready ready_file pid more in
    if is_some (w.file ready_file)
    then (ok (record { ready = true; attempts = 1; pid = pid }), w)
    else rest
wait_until_ready ready_file pid (exited e w) = (err supervisor_exited, w)
wait_until_ready ready_file pid (deadline w) = (err canceled, (terminate_process pid w).1)

-- A supervisor is taken for ready only where its ready file is there at the time, and its process
-- is the one that is reported.
pub wait_until_ready_ok :
    (ready_file : Text) (pid : ℤ) (x : Wait) {r : Started} {w : World}
    → wait_until_ready ready_file pid x ≡ (ok r, w)
    → (is_some (w.file ready_file) ≡ true) × (r ≡ record { ready = true; attempts = 1; pid = pid })
unfolding wait_until_ready
wait_until_ready_ok ready_file pid (tick v more) {r} {w} h =
    elim (Bool-cases (is_some (v.file ready_file))) [
      | inl e ↦
          let now : ◌≡◌ {A = Result Started × World}
              (ok (record { ready = true; attempts = 1; pid = pid }), v) (ok r, w) =
            rw (e, wait_until_ready) at h in
          (
            ap (λ (x : Result Started × World). is_some (x.1.file ready_file)) (sym now) ∙ e,
            sym (ok-injective (ap (λ (x : Result Started × World). x.0) now)),
          )
      | inr e ↦ wait_until_ready_ok ready_file pid more (rw (e, wait_until_ready) at h)
    ]
wait_until_ready_ok ready_file pid (exited e v) h = cc
wait_until_ready_ok ready_file pid (deadline v) h = cc
