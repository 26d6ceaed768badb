-- ===== src/SshConfig/UserConfig/Blocks.antt =====
-- What `removeManagedBlock` cuts out of a text that holds a block.
use dev_connect.Prelude.{
  ℕ, ◌+◌, ◌≡◌, ◌≢◌, refl, sym, ap, arith, some, ◌∷◌, ◌++◌, append_assoc, length, length-append,
  drop-length, take-length, All-append,
}
use dev_connect.Text.{Text, codes, index, has_prefix, trim_left, is_newline, Lacks}
use dev_connect.Text.Search.{index-cons_ne, index-append_self, index-append_Lacks}
use dev_connect.SshConfig.UserConfig.{cut_block, remove_managed_block, begin_marker, end_marker}
use dev_connect.SshConfig.UserConfig.Loop.{remove_managed_block_lem}

-- The byte that starts a marker.
abbrev pub hash : ℕ
hash = b'#'

-- The markers without that byte.
abbrev pub begin_tail : Text → Text
begin_tail alias = codes " BEGIN dev-connect " ++ alias

abbrev pub end_tail : Text → Text
end_tail alias = codes " END dev-connect " ++ alias

module _ (alias : Text) where
  begin_tail-Lacks : Lacks hash alias → Lacks hash (begin_tail alias)
  begin_tail-Lacks h = All-append _ (codes " BEGIN dev-connect ") alias (omega arith) h

  index-begin_marker :
      (pre x : Text)
      → Lacks hash pre
      → index (pre ++ (begin_marker alias ++ x)) (begin_marker alias) ≡ some (length pre)
  unfolding begin_marker
  index-begin_marker pre x h =
      rw (index-append_Lacks hash pre _ (begin_tail alias) h)
        (rw (index-append_self hash (begin_tail alias) x) (ground arith))

  -- The end marker is found behind a begin marker and text without a hash.
  index-end_marker :
      (t u : Text)
      → Lacks hash alias
      → Lacks hash t
      → index (begin_marker alias ++ (t ++ (end_marker alias ++ u))) (end_marker alias)
        ≡ some (length (begin_marker alias ++ t))
  unfolding begin_marker end_marker
  index-end_marker t u ha ht =
      let m = begin_tail alias ++ t in
      let s = m ++ (end_marker alias ++ u) in
      let lacks = All-append (λ c. c ≢ hash) (begin_tail alias) t (begin_tail-Lacks ha) ht in
      let found : index s (end_marker alias) ≡ some (length m) =
        rw (index-append_Lacks hash m _ (end_tail alias) lacks)
          (rw (index-append_self hash (end_tail alias) u) (ground arith)) in
      let shape : begin_marker alias ++ (t ++ (end_marker alias ++ u)) ≡ hash ∷ s =
        ap (λ x. codes "# BEGIN dev-connect " ++ x)
          (sym (append_assoc alias t (end_marker alias ++ u))) in
      rw (ap (λ x. index x (end_marker alias)) shape)
        (rw (index-cons_ne hash s (end_marker alias) (unfold has_prefix in refl)) (rw found refl))

  cut_block_shape :
      (pre t u : Text)
      → cut_block
          (pre ++ (begin_marker alias ++ (t ++ (end_marker alias ++ u))))
          (end_marker alias)
          (length pre)
          (length (begin_marker alias ++ t))
        ≡ pre ++ trim_left is_newline u
  unfolding cut_block
  cut_block_shape pre t u =
      let head = begin_marker alias ++ t in
      let whole : pre ++ (begin_marker alias ++ (t ++ (end_marker alias ++ u)))
          ≡ (pre ++ (head ++ end_marker alias)) ++ u =
        simp append_assoc in
      let n : length pre + length head + length (end_marker alias)
          ≡ length (pre ++ (head ++ end_marker alias)) =
        omega (
          arith,
          length-append pre (head ++ end_marker alias),
          length-append head (end_marker alias),
        ) in
      rw (take-length pre _, n, whole, drop-length (pre ++ (head ++ end_marker alias)) u)

-- A block is cut out with its markers and the newlines behind it, and the search goes on in the
-- text before it and behind it, which are kept. No `#` stands in the alias, before the block or
-- between its markers.
pub remove_managed_block-append :
    (alias pre t u : Text)
    → Lacks hash alias
    → Lacks hash pre
    → Lacks hash t
    → remove_managed_block (pre ++ (begin_marker alias ++ (t ++ (end_marker alias ++ u)))) alias
      ≡ remove_managed_block (pre ++ trim_left is_newline u) alias
remove_managed_block-append alias pre t u ha hp ht = rw remove_managed_block_lem (
    rw (index-begin_marker alias pre _ hp)
      (rw (drop-length pre) (rw (index-end_marker alias t u ha ht) (rw cut_block_shape refl))))
