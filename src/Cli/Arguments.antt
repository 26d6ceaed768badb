-- ===== src/Cli/Arguments.antt =====
-- cmd/dev-connect/main.go: the command line of the supervisor, and how it is read back.
use mathlib.Core.Option
use dev_connect.Prelude.{
  Bool, true, false, not, ◌&&◌, Option, none, some, List, [], ◌∷◌, ◌++◌, ◌≡◌, refl, ap,
  if◌then◌else◌, is_nil, All, Bool-cases, inl, inr,
}
use dev_connect.Text.{Text, codes, equal, equal_iff, has_prefix}
use dev_connect.Map.{Map}
use dev_connect.Cli.{CliOptions, one_of}

-- A flag with its value, where there is one.
abbrev pub given : Text → Text → List Text
given name value = if is_nil value then [] else name ∷ value ∷ []

unfoldable pub supervisor_args : CliOptions → Text → Text → Text → Text → List Text
supervisor_args o config_path target session_dir ready_file =
    given (codes "--config") config_path
    ++ (given (codes "--context") o.context_name
        ++ (given (codes "--cluster") o.cluster_name
            ++ (given (codes "--gateway") o.gateway_name
                ++ (given (codes "--kubectl-path") o.kubectl_path
                    ++ (given (codes "--log-level") o.log_level
                        ++ (given (codes "--log-format") o.log_format
                            ++ ((if o.no_reconnect then codes "--no-reconnect" ∷ [] else [])
                                ++ codes "tunnel-supervisor"
                                  ∷ target
                                  ∷ codes "--session-dir"
                                  ∷ session_dir
                                  ∷ codes "--ready-file"
                                  ∷ ready_file
                                  ∷ [])))))))

-- A command line as its flags, with their values, and its other arguments.
pub record Parsed : Type 0 where
  pub flags : Map Text
  pub others : List Text

abbrev flag_and : Text → Text → Parsed → Parsed
flag_and name value p = record p { flags = (name, value) ∷ p.flags }

abbrev other_and : Text → Parsed → Parsed
other_and argument p = record p { others = argument ∷ p.others }

-- The flags of the supervisor, those of every command among them.
abbrev switches : List Text
switches = codes "--no-code" ∷ codes "--no-reconnect" ∷ []

abbrev value_flags : List Text
value_flags =
    codes "--config"
    ∷ codes "--context"
    ∷ codes "--cluster"
    ∷ codes "--gateway"
    ∷ codes "--log-level"
    ∷ codes "--log-format"
    ∷ codes "--output"
    ∷ codes "--kubectl-path"
    ∷ codes "--timeout"
    ∷ codes "--session-dir"
    ∷ codes "--ready-file"
    ∷ []

abbrev dash : Text
dash = codes "-"

-- The rules of pflag: two dashes alone end the flags; a switch has no value; every other known flag
-- takes the next argument, whatever it is; any other argument that begins with a dash is refused,
-- as an unknown flag or shorthand; a dash alone, and all else, is no flag. A value behind `=` in the
-- same argument, which pflag takes too, is not read here.
pub read_args : List Text → Option Parsed
unfolding one_of
read_args [] = some (record { flags = []; others = [] })
read_args (a ∷ []) =
    if equal a (codes "--")
    then some (record { flags = []; others = [] })
    else if one_of a switches
    then some (record { flags = (a, []) ∷ []; others = [] })
    else if has_prefix a dash && not (equal a dash)
    then none
    else some (record { flags = []; others = a ∷ [] })
read_args (a ∷ b ∷ more) =
    let alone = read_args (b ∷ more) in
    let behind = read_args more in
    if equal a (codes "--")
    then some (record { flags = []; others = b ∷ more })
    else if one_of a switches
    then Option.map (flag_and a []) alone
    else if one_of a value_flags
    then Option.map (flag_and a b) behind
    else if has_prefix a dash && not (equal a dash)
    then none
    else Option.map (other_and a) alone

-- The flag that a value makes.
abbrev pub kept : Text → Text → Map Text
kept name value = if is_nil value then [] else (name, value) ∷ []

abbrev behind : Map Text → Parsed → Parsed
behind flags p = record p { flags = flags ++ p.flags }

read_args-given :
    (name value : Text) (more : List Text) {p : Parsed}
    → equal name (codes "--") ≡ false
    → one_of name switches ≡ false
    → one_of name value_flags ≡ true
    → read_args more ≡ some p
    → read_args (given name value ++ more) ≡ some (behind (kept name value) p)
unfolding read_args
read_args-given name [] more h k l e = e
read_args-given name (c ∷ value) more h k l e = rw (h, k, l, e) refl

-- What begins with no dash is none of these.
no_dash :
    (t name : Text) → has_prefix name dash ≡ true → has_prefix t dash ≡ false → equal t name ≡ false
no_dash t name h k = elim (Bool-cases (equal t name)) [
  | inr e ↦ e
  | inl e ↦ let same = ap (λ s. has_prefix s dash) ((equal_iff t name).0 e) in cc
]

no_dash-one_of :
    (t : Text) (names : List Text)
    → All (λ name. has_prefix name dash ≡ true) names
    → has_prefix t dash ≡ false
    → one_of t names ≡ false
unfolding one_of
no_dash-one_of t [] h k = refl
no_dash-one_of t (name ∷ names) (h, hs) k =
    rw (no_dash t name h k, no_dash-one_of t names hs k) refl

-- The arguments behind the flags of the program.
abbrev last_args : Bool → Text → Text → Text → List Text
last_args no_reconnect target session_dir ready_file =
    (if no_reconnect then codes "--no-reconnect" ∷ [] else [])
    ++ codes "tunnel-supervisor"
      ∷ target
      ∷ codes "--session-dir"
      ∷ session_dir
      ∷ codes "--ready-file"
      ∷ ready_file
      ∷ []

abbrev pub last_flags : Bool → Text → Text → Map Text
last_flags no_reconnect session_dir ready_file =
    (if no_reconnect then (codes "--no-reconnect", []) ∷ [] else [])
    ++ (codes "--session-dir", session_dir) ∷ (codes "--ready-file", ready_file) ∷ []

read_args-last_args :
    (no_reconnect : Bool) (target session_dir ready_file : Text)
    → equal target (codes "--") ≡ false
    → one_of target switches ≡ false
    → one_of target value_flags ≡ false
    → has_prefix target dash ≡ false
    → read_args (last_args no_reconnect target session_dir ready_file)
      ≡ some (record {
        flags = last_flags no_reconnect session_dir ready_file;
        others = codes "tunnel-supervisor" ∷ target ∷ [];
      })
unfolding read_args equal has_prefix one_of
read_args-last_args true target session_dir ready_file h k l m = rw (h, k, l, m) refl
read_args-last_args false target session_dir ready_file h k l m = rw (h, k, l, m) refl

-- The supervisor, whose command line pflag reads, gets exactly the options, the session directory
-- and the ready file that it is started for, an empty option as one that is not given, and the
-- command with its target. The target does not begin with a dash.
pub read_args-supervisor_args :
    (o : CliOptions) (config_path target session_dir ready_file : Text)
    → has_prefix target dash ≡ false
    → read_args (supervisor_args o config_path target session_dir ready_file)
      ≡ some (record {
        flags =
            kept (codes "--config") config_path
            ++ (kept (codes "--context") o.context_name
                ++ (kept (codes "--cluster") o.cluster_name
                    ++ (kept (codes "--gateway") o.gateway_name
                        ++ (kept (codes "--kubectl-path") o.kubectl_path
                            ++ (kept (codes "--log-level") o.log_level
                                ++ (kept (codes "--log-format") o.log_format
                                    ++ last_flags o.no_reconnect session_dir ready_file))))));
        others = codes "tunnel-supervisor" ∷ target ∷ [];
      })
unfolding supervisor_args equal has_prefix one_of
read_args-supervisor_args o config_path target session_dir ready_file h =
    read_args-given (codes "--config") config_path _ refl refl refl (
      read_args-given (codes "--context") o.context_name _ refl refl refl (
        read_args-given (codes "--cluster") o.cluster_name _ refl refl refl (
          read_args-given (codes "--gateway") o.gateway_name _ refl refl refl (
            read_args-given (codes "--kubectl-path") o.kubectl_path _ refl refl refl (
              read_args-given (codes "--log-level") o.log_level _ refl refl refl (
                read_args-given (codes "--log-format") o.log_format _ refl refl refl (
                  read_args-last_args o.no_reconnect target session_dir ready_file
                    (no_dash target (codes "--") refl h)
                    (no_dash-one_of target switches (refl, (refl, tt)) h)
                    (no_dash-one_of target value_flags
                      (
                        refl,
                        (
                          refl,
                          (
                            refl,
                            (refl, (refl, (refl, (refl, (refl, (refl, (refl, (refl, tt)))))))),
                          ),
                        ),
                      )
                      h)
                    h)))))))
