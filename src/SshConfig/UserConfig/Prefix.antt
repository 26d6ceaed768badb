-- ===== src/SshConfig/UserConfig/Prefix.antt =====
-- internal/sshconfig/userconfig.go: one alias that starts another.
use dev_connect.Prelude.{
  ℕ, ◌≡◌, ◌≢◌, sym, ap, ◌∙◌, [], ◌∷◌, ◌++◌, append_assoc, All-append, false, none, arith,
}
use dev_connect.Text.{Text, codes, index, trim_left, is_newline, Lacks}
use dev_connect.Text.Search.{index_Lacks}
use dev_connect.SshConfig.UserConfig.{remove_managed_block, begin_marker, end_marker}
use dev_connect.SshConfig.UserConfig.Blocks.{hash, begin_tail, remove_managed_block-append}
use dev_connect.SshConfig.UserConfig.Settle.{remove_none}

-- A block of an alias, as `renderManagedBlock` frames it, with text behind it.
abbrev pub block_of : Text → Text → Text → Text
block_of alias config rest =
    begin_marker alias ++ b'\n' ∷ (config ++ (end_marker alias ++ b'\n' ∷ rest))

begin_marker-append : (a s : Text) → begin_marker (a ++ s) ≡ begin_marker a ++ s
unfolding begin_marker
begin_marker-append a s = ap (λ t. codes "# BEGIN dev-connect " ++ t) (append_assoc [] a s)

end_marker-append : (a s : Text) → end_marker (a ++ s) ≡ end_marker a ++ s
unfolding end_marker
end_marker-append a s = ap (λ t. codes "# END dev-connect " ++ t) (append_assoc [] a s)

no_marker : (alias t : Text) → Lacks hash t → index t (begin_marker alias) ≡ none
unfolding begin_marker
no_marker alias t h = index_Lacks hash t (begin_tail alias) h

-- Removing an alias removes the block of a longer alias that starts with it, and leaves the rest of
-- the longer alias as a line of the file: the markers are compared without the end of the line.
-- The text around the block holds no `#`, and the rest of the alias starts with no newline.
pub remove_managed_block_prefix :
    (alias : Text) (c : ℕ) (s config rest : Text)
    → Lacks hash alias
    → Lacks hash (c ∷ s)
    → Lacks hash config
    → Lacks hash rest
    → is_newline c ≡ false
    → remove_managed_block (block_of (alias ++ c ∷ s) config rest) alias ≡ (c ∷ s) ++ b'\n' ∷ rest
unfolding trim_left
remove_managed_block_prefix alias c s config rest ha hs hc hr plain =
    let t = (c ∷ s) ++ b'\n' ∷ config in
    let u = (c ∷ s) ++ b'\n' ∷ rest in
    let lacks_t = All-append (λ x. x ≢ hash) (c ∷ s) (b'\n' ∷ config) hs (omega arith, hc) in
    let lacks_u = All-append (λ x. x ≢ hash) (c ∷ s) (b'\n' ∷ rest) hs (omega arith, hr) in
    let shape : block_of (alias ++ c ∷ s) config rest
        ≡ begin_marker alias ++ (t ++ (end_marker alias ++ u)) =
      ap (λ m. m ++ b'\n' ∷ (config ++ (end_marker (alias ++ c ∷ s) ++ b'\n' ∷ rest)))
        (begin_marker-append alias (c ∷ s))
      ∙ append_assoc (begin_marker alias) (c ∷ s) _
      ∙ ap (λ m. begin_marker alias ++ ((c ∷ s) ++ b'\n' ∷ (config ++ (m ++ b'\n' ∷ rest))))
          (end_marker-append alias (c ∷ s))
      ∙ ap (λ m. begin_marker alias ++ ((c ∷ s) ++ b'\n' ∷ (config ++ m)))
          (append_assoc (end_marker alias) (c ∷ s) _)
      ∙ ap (λ m. begin_marker alias ++ m)
          (sym (append_assoc (c ∷ s) (b'\n' ∷ config) (end_marker alias ++ u))) in
    ap (λ x. remove_managed_block x alias) shape
    ∙ remove_managed_block-append alias [] t u ha tt lacks_t
    ∙ (let starts : trim_left is_newline u ≡ u = rw plain in
        ap (λ x. remove_managed_block x alias) starts
        ∙ remove_none alias u (no_marker alias u lacks_u)
        ∙ starts)
