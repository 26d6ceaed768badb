-- ===== src/SshConfig/UserConfig/Loop.antt =====
-- `removeManagedBlock` ends: each round shortens the text, so the fuel is never used up.
use dev_connect.Prelude.{
  ℕ, zero, suc, ◌+◌, ◌<◌, ◌≡◌, arith, none, some, Option-cases, inl, inr, take, drop, length,
  length-append, length-drop, length-take_le,
}
use dev_connect.Text.{Text, index, trim_left, is_newline}
use dev_connect.Text.Search.{index_bound}
use dev_connect.Text.Trim.{length-trim_left}
use dev_connect.SshConfig.UserConfig.{
  cut_block, remove_blocks, remove_managed_block, begin_marker, end_marker,
}

cut_block_shorter :
    (content begin end : Text) {start : ℕ} (stop : ℕ)
    → 0 < length begin
    → 0 < length end
    → index content begin ≡ some start
    → length (cut_block content end start stop) < length content
unfolding cut_block
cut_block_shorter content begin end {start} stop hb he found =
    let k = start + stop + length end in
    omega (
      arith,
      length-append (take start content) (trim_left is_newline (drop k content)),
      length-take_le start content,
      length-trim_left is_newline (drop k content),
      length-drop k content,
      index_bound content begin found,
    )

-- Any two amounts of fuel above the length give the same text.
pub remove_blocks_fuel :
    (f g : ℕ) (content begin end : Text)
    → 0 < length begin
    → 0 < length end
    → length content < f
    → length content < g
    → remove_blocks f content begin end ≡ remove_blocks g content begin end
unfolding remove_blocks
remove_blocks_fuel zero g content begin end hb he hf hg = absurd (omega arith)
remove_blocks_fuel (suc f) zero content begin end hb he hf hg = absurd (omega arith)
remove_blocks_fuel (suc f) (suc g) content begin end hb he hf hg =
    elim (Option-cases (index content begin)) [
      | inl e ↦ rw (e, remove_blocks)
      | inr (start, e) ↦
          rw (e, remove_blocks)
            (elim (Option-cases (index (drop start content) end)) [
              | inl e' ↦ rw e'
              | inr (stop, e') ↦ rw e' (
                  let shorter = cut_block_shorter content begin end stop hb he e in
                  remove_blocks_fuel f g (cut_block content end start stop) begin end hb he
                    (omega arith) (omega arith))
            ])
    ]

begin_marker_pos : (alias : Text) → 0 < length (begin_marker alias)
unfolding begin_marker
begin_marker_pos alias = omega arith

end_marker_pos : (alias : Text) → 0 < length (end_marker alias)
unfolding end_marker
end_marker_pos alias = omega arith

-- `removeManagedBlock` satisfies the equation of its loop, with no bound on the rounds: without a
-- begin marker the text is trimmed, without an end marker behind it the text stays, and otherwise
-- the block is cut out and the search starts again.
pub remove_managed_block_lem :
    (content alias : Text)
    → remove_managed_block content alias ≡ elim (index content (begin_marker alias)) [
      | none ↦ trim_left is_newline content
      | some start ↦ elim (index (drop start content) (end_marker alias)) [
        | none ↦ content
        | some stop ↦ remove_managed_block (cut_block content (end_marker alias) start stop) alias
      ]
    ]
unfolding remove_managed_block remove_blocks
remove_managed_block_lem content alias =
    let b = begin_marker alias in
    let e = end_marker alias in
    elim (Option-cases (index content b)) [
      | inl p ↦ rw (p, remove_blocks)
      | inr (start, p) ↦
          rw (p, remove_blocks)
            (elim (Option-cases (index (drop start content) e)) [
              | inl q ↦ rw q
              | inr (stop, q) ↦ rw q (
                  let shorter =
                    cut_block_shorter content b e stop (begin_marker_pos alias)
                      (end_marker_pos alias) p in
                  remove_blocks_fuel (length content)
                    (suc (length (cut_block content e start stop))) (cut_block content e start stop)
                    b e (begin_marker_pos alias) (end_marker_pos alias) shorter (omega arith))
            ])
    ]

-- A round of the removal shortens the text.
pub removal_shortens :
    (content alias : Text) {start : ℕ} (stop : ℕ)
    → index content (begin_marker alias) ≡ some start
    → length (cut_block content (end_marker alias) start stop) < length content
removal_shortens content alias stop h =
    cut_block_shorter content (begin_marker alias) (end_marker alias) stop (begin_marker_pos alias)
      (end_marker_pos alias) h
