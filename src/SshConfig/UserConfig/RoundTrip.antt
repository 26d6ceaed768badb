-- ===== src/SshConfig/UserConfig/RoundTrip.antt =====
-- internal/sshconfig/userconfig.go: a block that was put into a text is taken out of it again.
use dev_connect.Prelude.{
  ℕ, Bool, true, false, not, List, ◌≡◌, ◌≢◌, refl, sym, ap, ◌∙◌, arith, [], ◌∷◌, ◌++◌, append_assoc,
  append-nil, if◌then◌else◌, is_nil, All, All-append, inl, inr, Bool-cases, ℤ,
}
use dev_connect.Text.{Text, codes, join, trim_left, is_newline, Lacks}
use dev_connect.Text.Numbers.{decimal_int, decimal_int-Lacks}
use dev_connect.Text.Trim.{trim_left_idem}
use dev_connect.SshConfig.{render_config, quote_config_value}
use dev_connect.SshConfig.Quoting.{quote_config_value-Lacks}
use dev_connect.SshConfig.Render.{config_lines, when, alive_lines, render_config-config_lines}
use dev_connect.SshConfig.UserConfig.{
  UserConfigOptions, remove_managed_block, render_managed_block, prepend_managed_block,
  begin_marker, end_marker, managed_options,
}
use dev_connect.SshConfig.UserConfig.Blocks.{hash, remove_managed_block-append}
use dev_connect.SshConfig.UserConfig.Settle.{remove_managed_block_settled}

-- No value that the block quotes holds the byte that starts a marker.
pub record HasNoHash (o : UserConfigOptions) : Type 0 where
  pub alias : Lacks hash o.alias
  pub user : Lacks hash o.user
  pub identity_file : Lacks hash o.identity_file
  pub local_host : Lacks hash o.local_host
  pub known_hosts_path : Lacks hash o.known_hosts_path

is_nil-eq : (s : Text) → is_nil s ≡ true → s ≡ []
is_nil-eq [] h = refl
is_nil-eq (c ∷ s) h = cc

join-Lacks :
    (ls : List Text) (b : ℕ) → b ≢ b'\n' → All (Lacks b) ls → Lacks b (join ls (b'\n' ∷ []))
unfolding join
join-Lacks [] b ne h = tt
join-Lacks (l ∷ []) b ne (hl, _) = hl
join-Lacks (l ∷ k ∷ ls) b ne (hl, hs) =
    All-append _ l _ hl ((λ e. ne (sym e)), join-Lacks (k ∷ ls) b ne hs)

labelled : (label v : Text) → Lacks hash label → Lacks hash v → Lacks hash (label ++ v)
labelled label v hl hv = All-append _ label v hl hv

number : (label : Text) (i : ℤ) → Lacks hash label → Lacks hash (label ++ decimal_int i)
number label i hl = labelled label (decimal_int i) hl (decimal_int-Lacks hash i (omega arith))

quoted :
    (label v : Text) → Lacks hash label → Lacks hash v → Lacks hash (label ++ quote_config_value v)
quoted label v hl hv =
    labelled label (quote_config_value v) hl
      (quote_config_value-Lacks hash v (omega arith) (omega arith) hv)

when-All :
    (b : Bool) (l : Text) (ls : List Text)
    → Lacks hash l
    → All (Lacks hash) ls
    → All (Lacks hash) (when b l ls)
unfolding when
when-All true l ls hl hs = (hl, hs)
when-All false l ls hl hs = hs

switch_Lacks :
    (b : Bool) (x y : Text) → Lacks hash x → Lacks hash y → Lacks hash (if b then x else y)
switch_Lacks true x y hx hy = hx
switch_Lacks false x y hx hy = hy

module _ (o : UserConfigOptions) (h : HasNoHash o) where
  config_lines-Lacks : All (Lacks hash) (config_lines (managed_options o) o.known_hosts_path)
  unfolding config_lines managed_options
  config_lines-Lacks =
      let alive : All (Lacks hash) (alive_lines (managed_options o)) =
        when-All _ _ _
          (number (codes "  ServerAliveInterval ") o.server_alive_interval (omega arith))
          (when-All _ _ _
            (number (codes "  ServerAliveCountMax ") o.server_alive_count_max (omega arith))
            (
              switch_Lacks o.tcp_keep_alive (codes "  TCPKeepAlive yes") (codes "  TCPKeepAlive no")
                  (omega arith) (omega arith),
              tt,
            )) in
      let keys : All (Lacks hash) (
          when (not (is_nil o.identity_file))
            (codes "  IdentityFile " ++ quote_config_value o.identity_file)
            (codes "  IdentitiesOnly yes" ∷ alive_lines (managed_options o))) =
        when-All _ _ _
          (quoted (codes "  IdentityFile ") o.identity_file (omega arith) h.identity_file)
          (omega arith, alive) in
      (
        labelled (codes "Host ") o.alias (omega arith) h.alias,
        (
          labelled (codes "  HostName ") o.local_host (omega arith) h.local_host,
          (
            number (codes "  Port ") o.local_port (omega arith),
            when-All _ _ _ (labelled (codes "  User ") o.user (omega arith) h.user) (
              quoted (codes "  UserKnownHostsFile ") o.known_hosts_path (omega arith)
                  h.known_hosts_path,
              (omega arith, keys),
            ),
          ),
        ),
      )

  render_config-Lacks : Lacks hash (render_config (managed_options o) o.known_hosts_path)
  render_config-Lacks = rw (render_config-config_lines (managed_options o) o.known_hosts_path) (
      All-append _ (join (config_lines (managed_options o) o.known_hosts_path) (b'\n' ∷ [])) _
        (join-Lacks _ hash (omega arith) config_lines-Lacks) (omega arith))

-- The block is taken out of any text that it starts.
remove-render_managed_block :
    (o : UserConfigOptions) (u : Text)
    → HasNoHash o
    → remove_managed_block (render_managed_block o ++ u) o.alias
      ≡ remove_managed_block (trim_left is_newline u) o.alias
unfolding render_managed_block trim_left
remove-render_managed_block o u h =
    let config = render_config (managed_options o) o.known_hosts_path in
    let shape : render_managed_block o ++ u
        ≡ begin_marker o.alias ++ ((b'\n' ∷ config) ++ (end_marker o.alias ++ b'\n' ∷ u)) =
      append_assoc (begin_marker o.alias) _ u
      ∙ ap (λ t. begin_marker o.alias ++ b'\n' ∷ t)
          (append_assoc config _ u
            ∙ ap (λ t. config ++ t) (append_assoc (end_marker o.alias) _ u)) in
    ap (λ t. remove_managed_block t o.alias) shape
    ∙ remove_managed_block-append o.alias [] (b'\n' ∷ config) (b'\n' ∷ u) h.alias tt
        (omega arith, render_config-Lacks o h)

prepend-append :
    (r block : Text)
    → (u : Text) × (prepend_managed_block r block ≡ block ++ u)
      × (trim_left is_newline u ≡ trim_left is_newline r)
unfolding prepend_managed_block trim_left
prepend-append r block = elim (Bool-cases (is_nil (trim_left is_newline r))) [
  | inl e ↦ ([], rw (e, append-nil block), sym (is_nil-eq _ e))
  | inr e ↦ (b'\n' ∷ trim_left is_newline r, rw e, trim_left_idem is_newline r)
]

-- Where a managed block is put in front of a text from which the alias was removed, as
-- `UpsertManagedBlock` does, removal gives back the text without the alias, less the newlines at
-- its start. Values with a `#` are not covered.
pub remove-prepend-remove :
    (o : UserConfigOptions) (content : Text)
    → HasNoHash o
    → remove_managed_block
        (prepend_managed_block (remove_managed_block content o.alias) (render_managed_block o))
        o.alias
      ≡ trim_left is_newline (remove_managed_block content o.alias)
remove-prepend-remove o content h =
    let r = remove_managed_block content o.alias in
    let (u, shape, rest) = prepend-append r (render_managed_block o) in
    ap (λ t. remove_managed_block t o.alias) shape
    ∙ remove-render_managed_block o u h
    ∙ ap (λ t. remove_managed_block t o.alias) rest
    ∙ remove_managed_block_settled content o.alias
