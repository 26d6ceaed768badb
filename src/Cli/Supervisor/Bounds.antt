-- ===== src/Cli/Supervisor/Bounds.antt =====
-- cmd/dev-connect/main.go: the pauses of the supervisor in any run, canceled or not.
use dev_connect.Prelude.{
  ℕ, ◌≤◌, Bool, true, false, not, ◌&&◌, List, [], ◌∷◌, arith, All, length, Bool-cases, inl, inr,
}
use dev_connect.Cli.Supervisor.{Exit, next_backoff, supervise, run_tunnel_supervisor}

abbrev pub IsPause : ℕ → Type 0
IsPause n = (1 ≤ n) × (n ≤ 30)

next_backoff-IsPause : (n : ℕ) → IsPause n → IsPause (next_backoff n)
unfolding next_backoff
next_backoff-IsPause n (low, high) = ground arith

supervise-IsPause :
    (reconnect : Bool) (n : ℕ) (xs : List Exit)
    → IsPause n
    → All IsPause (supervise reconnect n xs).pauses
      × (length (supervise reconnect n xs).pauses ≤ length xs)
unfolding supervise
supervise-IsPause reconnect n [] h = (tt, omega arith)
supervise-IsPause false n (x ∷ xs) h = elim (Bool-cases x.is_canceled) [
  | inl a ↦ rw (a) (tt, omega arith)
  | inr a ↦ rw (a) (tt, omega arith)
]
supervise-IsPause true n (x ∷ xs) h =
    let (rest, count) = supervise-IsPause true (next_backoff n) xs (next_backoff-IsPause n h) in
    elim (Bool-cases x.is_canceled) [
      | inl a ↦ rw (a) (tt, omega arith)
      | inr a ↦ elim (Bool-cases x.is_canceled_in_pause) [
        | inl d ↦ rw (a, d) ((h, tt), omega arith)
        | inr d ↦ rw (a, d) ((h, rest), omega (arith, count))
      ]
    ]

-- However the port-forwards end, and whether the supervisor is canceled or not, every pause is at
-- least one second long and at most thirty, and there is at most one behind each port-forward.
pub run_tunnel_supervisor-IsPause :
    (session_reconnect no_reconnect : Bool) (xs : List Exit)
    → All IsPause (run_tunnel_supervisor session_reconnect no_reconnect xs).pauses
      × (length (run_tunnel_supervisor session_reconnect no_reconnect xs).pauses ≤ length xs)
unfolding run_tunnel_supervisor
run_tunnel_supervisor-IsPause session_reconnect no_reconnect xs =
    supervise-IsPause (session_reconnect && not no_reconnect) 1 xs (omega arith, omega arith)
