-- ===== src/Tunnel.antt =====
-- internal/tunnel/tunnel.go: starting a port-forward, with further attempts.
pub mod Attempts
pub mod Executable
use dev_connect.Prelude.{
  ℕ, zero, suc, ◌+◌, Bool, true, false, not, Option, none, some, ℤ, pos, negsuc, if◌then◌else◌,
}
use dev_connect.Text.{Text, codes, contains}
use dev_connect.Result.{Error, Result, ok, err}
use dev_connect.Kubectl.{
  Command, Output, StartedProcess, Runner, PortForwardOptions, port_forward_service_command,
}

pub record StartOptions : Type 0 where
  pub port_forward : PortForwardOptions
  pub reconnect : Bool

pub record Started : Type 0 where
  pub ready : Bool
  pub attempts : ℕ
  pub pid : ℤ

unfoldable pub is_ready_output : Text → Bool
unfolding contains
is_ready_output output = contains output (codes "Forwarding from ")

-- `MaxReconnects`, where it is not negative
abbrev not_below_zero : ℤ → ℕ
not_below_zero (pos n) = n
not_below_zero (negsuc n) = 0

-- The attempts after the first one: there is always a first one.
unfoldable pub further_attempts : ℤ → Bool → ℕ
further_attempts max_reconnects reconnect = if reconnect then not_below_zero max_reconnects else 0

module _ {S : Type 0} (runner : Runner S) where
  -- What one attempt gives, as the result of the whole if it succeeds.
  abbrev pub of_started : ℕ → Result StartedProcess → Result Started
  of_started n (ok p) = ok (record { ready = true; attempts = n; pid = p.pid })
  of_started n (err e) = err e

  abbrev pub of_output : ℕ → Result Output → Result Started
  of_output n (ok o) = ok (record { ready = is_ready_output o.stdout; attempts = n; pid = pos 0 })
  of_output n (err e) = err e

  unfoldable pub attempt : Command → ℕ → S → Result Started × S
  unfolding is_ready_output
  attempt command n s = elim runner.start_until_ready [
    | some start ↦ let (r, s') = start command is_ready_output s in (of_started n r, s')
    | none ↦ let (r, s') = runner.run command s in (of_output n r, s')
  ]

  -- The loop, with the attempts left after this one and the number of this one. Of a failed start
  -- the last error is kept.
  unfoldable pub start_loop : ℕ → ℕ → Command → S → Result Started × S
  unfolding attempt
  start_loop zero n command s = attempt command n s
  start_loop (suc left) n command s =
      let r = attempt command n s in
      elim r.0 [ ok started ↦ (ok started, r.1) | err e ↦ start_loop left (suc n) command r.1 ]

  unfoldable pub start : ℤ → StartOptions → S → Result Started × S
  unfolding further_attempts port_forward_service_command start_loop
  start max_reconnects o s =
      start_loop (further_attempts max_reconnects o.reconnect) 1
        (port_forward_service_command o.port_forward) s
