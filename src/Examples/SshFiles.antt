-- ===== src/Examples/SshFiles.antt =====
-- Runs of internal/sshconfig/sshconfig.go.
use dev_connect.Prelude.{some, ◌≡◌, arith, [], ◌∷◌, ◌++◌}
use dev_connect.Text.{codes, join}
use dev_connect.SshConfig.{quote_config_value, render_config}
use dev_connect.SshConfig.Quoting.{read_quoted, read_quoted-quote_config_value}
use dev_connect.SshConfig.Render.{config_lines, render_config-config_lines}
use dev_connect.Examples.Machine.{session_options}

read_quoted-quote_config_value_example :
    read_quoted (quote_config_value (codes "a\\ \"b") ++ codes " x")
    ≡ some (codes "a\\ \"b", codes " x")
read_quoted-quote_config_value_example =
    read_quoted-quote_config_value (codes "a\\ \"b") (codes " x") (omega arith) (omega arith)

render_config-config_lines_example :
    render_config session_options (codes "/k")
    ≡ join (config_lines session_options (codes "/k")) (b'\n' ∷ []) ++ b'\n' ∷ []
render_config-config_lines_example = render_config-config_lines session_options (codes "/k")
