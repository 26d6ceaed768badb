-- ===== src/Lib.antt =====
-- dev-connect connects VS Code Desktop to a development server through a port-forward of kubectl.
-- This library models the Go program of cmd/dev-connect and internal.
--
-- A `connect` loads the configuration (internal/config), checks that no session is active
-- (internal/session), resolves the target, allocates a port and writes the session's SSH files
-- (internal/connect, internal/port, internal/sshconfig), lets kubectl check the access
-- (internal/preflight, internal/kubectl), starts a supervisor that keeps the port-forward running
-- (internal/tunnel, cmd/dev-connect), notes it in the session, puts a block into the user's SSH
-- configuration, and launches VS Code (internal/vscode). `disconnect` undoes this, `status` reports
-- it; `list`, `version`, `config validate` and `config location` only answer. Each command logs a
-- line (internal/logging) and prints a response (internal/output).
--
-- - Prelude, Text, Map, Result: numbers, byte strings with the functions of the package strings,
--   Go maps as lists of entries, and errors as values, one constructor for each message.
-- - World: the files, the processes and the refusals of the machine, system calls as functions on
--   it, and the monad of calls that may fail; World.Frame has the laws of the calls.
-- - Config: internal/config/config.go; Config.Validate, Config.Load.
-- - Port: internal/port/port.go.
-- - SshConfig: internal/sshconfig/sshconfig.go, with SshConfig.Write for the calls of the system;
--   SshConfig.UserConfig: internal/sshconfig/userconfig.go.
-- - Session: internal/session; Session.Store, Session.Lock, Session.Process for Unix,
--   Session.Windows.
-- - Proxy: internal/proxy/env.go.
-- - Kubectl: internal/kubectl/command.go; Kubectl.Resolve, Kubectl.MergeEnv and Kubectl.Process:
--   internal/kubectl/runner.go; Kubectl.Process.Channel has the process, the goroutines and the loop
--   of `RunUntilReady` as a step relation. Kubectl.Fake: internal/kubectl/fake_test_harness.go.
-- - Tunnel: internal/tunnel/tunnel.go; Tunnel.Executable composes it with Kubectl.Process.
--   Preflight: internal/preflight/preflight.go.
-- - Vscode: internal/vscode; Vscode.Launcher, Vscode.Launch, Vscode.UserData, Vscode.Setup.
-- - Logging: internal/logging/logging.go; Logging.Secrets. Output: internal/output/output.go.
--   Map.Order: Go's order of strings, and maps that differ in the order of their entries;
--   Map.Unordered: their quotient.
-- - Connect: internal/connect/connect.go.
-- - Cli: cmd/dev-connect/main.go; Cli.Connecting for connect, Cli.Sessions for disconnect and the
--   check of an old session, Cli.Status, Cli.Listing for list, Cli.Announce for what every command
--   logs and prints, Cli.Commands and Cli.Execute for the commands as a whole, Cli.Location;
--   Cli.Host for the programs that are run, Cli.Supervisor for the tunnel's supervisor and its
--   start, Cli.Arguments for its command line, Cli.Environment.
-- - Examples: concrete runs.
--
-- A function of the source has its name in snake_case. Functions of the source that run a program
-- take a runner (Kubectl.Runner) or a function on the machine as an argument; the package os/exec is
-- the interface Kubectl.Process.Exec. The JSON and YAML packages are arguments too; of JSON it is
-- assumed that a state whose texts are valid UTF-8 (Text.Utf8) is read back as it was written. A
-- path of the system is a byte string, joined and cleaned as path/filepath does on Unix. What
-- kubectl sees of its environment (Proxy.Seen), how ssh reads a quoted value (SshConfig.Quoting) and
-- how pflag reads the supervisor's command line (Cli.Arguments) are readers written apart.
--
-- The loop that removes managed blocks runs on fuel, one unit more than the text has bytes; each
-- round makes the text shorter, so this is enough. The retries of the tunnel are bounded by the
-- source. The supervisor's loop runs over a list of the port-forwards that have ended, of any
-- length. The loops that wait for a process run over what they see of it, one event after the other,
-- up to the event that ends them: the end of the process or of the context.
--
-- Directories are made or refused, and not recorded. White space and letter case are those of
-- ASCII. Not modelled: the registration of commands and flags with cobra and their help, the
-- printing of JSON and of log lines, the attributes of background processes, and the server and the
-- fake kubectl for the tests, which are not part of the program.
pub mod Prelude
pub mod Text
pub mod Result
pub mod World
pub mod Map
pub mod Config
pub mod Port
pub mod SshConfig
pub mod Session
pub mod Proxy
pub mod Kubectl
pub mod Tunnel
pub mod Preflight
pub mod Vscode
pub mod Connect
pub mod Logging
pub mod Output
pub mod Cli
pub mod Examples
