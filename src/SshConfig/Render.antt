-- ===== src/SshConfig/Render.antt =====
-- internal/sshconfig/sshconfig.go: the order of the lines that `renderConfig` makes by inserting.
use dev_connect.Prelude.{
  true, false, Bool, List, [], ◌∷◌, ◌++◌, ◌≡◌, ap, ◌∙◌, append_assoc, Bool-cases, inl, inr,
  if◌then◌else◌, is_nil, not, is_positive,
}
use dev_connect.Text.{Text, codes, join}
use dev_connect.Text.Numbers.{decimal_int}
use dev_connect.SshConfig.{
  SessionOptions, render_config, quote_config_value, base_lines, with_user, with_identity,
  with_alive,
}

-- A line that is there if its condition holds.
unfoldable pub when : Bool → Text → List Text → List Text
when true line rest = line ∷ rest
when false line rest = rest

-- The lines up to the identities, in the order in which they stand.
abbrev pub head_lines : SessionOptions → Text → List Text → List Text
head_lines o known_hosts_path rest =
    (codes "Host " ++ o.alias)
    ∷ (codes "  HostName " ++ o.local_host)
    ∷ (codes "  Port " ++ decimal_int o.local_port)
    ∷ when (not (is_nil o.user)) (codes "  User " ++ o.user) (
        (codes "  UserKnownHostsFile " ++ quote_config_value known_hosts_path)
        ∷ codes "  StrictHostKeyChecking yes"
        ∷ when (not (is_nil o.identity_file))
            (codes "  IdentityFile " ++ quote_config_value o.identity_file)
            (codes "  IdentitiesOnly yes" ∷ rest))

-- The lines that keep a connection alive.
abbrev pub alive_lines : SessionOptions → List Text
alive_lines o =
    when (is_positive o.server_alive_interval)
      (codes "  ServerAliveInterval " ++ decimal_int o.server_alive_interval)
      (when (is_positive o.server_alive_count_max)
        (codes "  ServerAliveCountMax " ++ decimal_int o.server_alive_count_max)
        ((if o.tcp_keep_alive then codes "  TCPKeepAlive yes" else codes "  TCPKeepAlive no") ∷ []))

-- All the lines.
unfoldable pub config_lines : SessionOptions → Text → List Text
config_lines o known_hosts_path = head_lines o known_hosts_path (alive_lines o)

with_identity-with_user :
    (o : SessionOptions) (k : Text) (rest : List Text)
    → with_identity o (with_user o (base_lines o k)) ++ rest ≡ head_lines o k rest
unfolding with_identity with_user base_lines when
with_identity-with_user o k rest = elim (Bool-cases (is_nil o.user)) [
  | inl u ↦ elim (Bool-cases (is_nil o.identity_file)) [ inl i ↦ rw (u, i) | inr i ↦ rw (u, i) ]
  | inr u ↦ elim (Bool-cases (is_nil o.identity_file)) [ inl i ↦ rw (u, i) | inr i ↦ rw (u, i) ]
]

with_alive-append : (o : SessionOptions) (ls : List Text) → with_alive o ls ≡ ls ++ alive_lines o
unfolding with_alive when
with_alive-append o ls = elim (Bool-cases (is_positive o.server_alive_interval)) [
  | inl a ↦ elim (Bool-cases (is_positive o.server_alive_count_max)) [
    | inl c ↦ rw (a, c) (simp append_assoc)
    | inr c ↦ rw (a, c) (simp append_assoc)
  ]
  | inr a ↦ elim (Bool-cases (is_positive o.server_alive_count_max)) [
    | inl c ↦ rw (a, c) (simp append_assoc)
    | inr c ↦ rw (a, c)
  ]
]

-- The insertions of `renderConfig` give the lines of `config_lines`, each with a newline behind
-- it: the host, its address and its port, the user if there is one, the pinned keys with strict
-- checking, the identity file if there is one, and the settings that keep the connection alive.
pub render_config-config_lines :
    (o : SessionOptions) (k : Text)
    → render_config o k ≡ join (config_lines o k) (b'\n' ∷ []) ++ b'\n' ∷ []
unfolding render_config config_lines
render_config-config_lines o k =
    ap (λ ls. join ls (b'\n' ∷ []) ++ b'\n' ∷ [])
      (with_alive-append o _ ∙ with_identity-with_user o k (alive_lines o))
