-- ===== src/Port.antt =====
-- internal/port/port.go: a free port on the loopback interface. What the package net reports of a
-- listener there is an argument.
use dev_connect.Prelude.{ℤ}
use dev_connect.Text.{Text, codes}
use dev_connect.Result.{
  Result, ok, err, ◌>>=◌, resolve_loopback_failed, listen_failed, unexpected_listener_address,
}

pub record Allocation : Type 0 where
  pub host : Text
  pub port : ℤ

-- The address is not resolved or not listened on, with the cause, or the listener has an address of
-- another kind, or one with a port.
pub data Listened : Type 0 where
  not_resolved not_listening : Text → Listened
  other_address : Listened
  at_port : ℤ → Listened

unfoldable pub default_port_probe : Listened → Result ℤ
default_port_probe (not_resolved cause) = err (resolve_loopback_failed cause)
default_port_probe (not_listening cause) = err (listen_failed cause)
default_port_probe other_address = err unexpected_listener_address
default_port_probe (at_port n) = ok n

abbrev pub loopback : Text
loopback = codes "127.0.0.1"

unfoldable pub allocate_loopback : Result ℤ → Result Allocation
allocate_loopback probe = do port ← probe; ok (record { host = loopback; port = port })
