-- ===== src/Session/Persistence.antt =====
-- internal/session/session.go: what the store keeps and what it refuses.
use dev_connect.Prelude.{
  Bool, true, false, ◌&&◌, Option, some, none, ◌≡◌, refl, sym, ap, subst, ◌∙◌, arith, [], ◌∷◌,
  is_nil,
}
use dev_connect.Text.{Text}
use dev_connect.Result.{ok, err, session_not_found, write_failed, chmod_failed, mkdir_failed, is_ok}
use dev_connect.World.{World, Call, mkdir_all, read_file, update_self, remove, update}
use dev_connect.World.Steps.{act, lift}
use dev_connect.World.Frame.{
  put, >>=-eq-ok, lift-eq-ok, mkdir_all-eq-ok, write-chmod-eq-ok, act-eq-ok, remove-eq-some,
  remove-remove,
}
use dev_connect.Session.{State, validate}
use dev_connect.Session.Store.{
  Codec, save, load, clear, path, visible, state_file_mode, has_utf8, marshaled,
}

-- The state carries no credential.
abbrev pub has_no_credential : State → Bool
has_no_credential s = is_nil s.ssh_private_key && (is_nil s.password && is_nil s.kubernetes_token)

is_nil-eq : (s : Text) → is_nil s ≡ true → s ≡ []
is_nil-eq [] h = refl
is_nil-eq (c ∷ s) h = cc

validate_iff : (s : State) → is_ok (validate s) ≡ has_no_credential s
unfolding validate
validate_iff s = ground arith

valid-eq-nil :
    (s : State)
    → validate s ≡ ok tt
    → (is_nil s.ssh_private_key ≡ true)
      × (is_nil s.password ≡ true)
      × (is_nil s.kubernetes_token ≡ true)
unfolding validate
valid-eq-nil s h = (ground arith, ground arith, ground arith)

valid_visible : (s : State) → validate s ≡ ok tt → visible s ≡ s
valid_visible s h =
    let (no_key, no_password, no_token) = valid-eq-nil s h in
    let key = sym (is_nil-eq s.ssh_private_key no_key) in
    let pass = sym (is_nil-eq s.password no_password) in
    let token = sym (is_nil-eq s.kubernetes_token no_token) in
    λ i. record s { ssh_private_key = key i; password = pass i; kubernetes_token = token i }

marshaled-eq-ok : (r : Option Text) {x : Text} → marshaled r ≡ ok x → r ≡ some x
marshaled-eq-ok none h = cc
marshaled-eq-ok (some t) h = cc

module _ (c : Codec) where
  -- A successful `Save` was given no credential, and has put the encoding of the state at its path
  -- with mode 0600.
  pub save_ok :
      (dir : Text) (s : State) (w : World) {t : Unit {0}} {w' : World}
      → save c dir s w ≡ (ok t, w')
      → (validate s ≡ ok tt)
        × (x : Text) × (c.encode s ≡ some x)
        × (w' ≡ put w (path dir) x state_file_mode)
  unfolding save
  save_ok dir s w h =
      let (_, w0, valid, h1) = >>=-eq-ok (lift (validate s)) _ w h in
      let (_, u, made, h2) = >>=-eq-ok (act (λ x. mkdir_all x dir) (mkdir_failed dir)) _ w0 h1 in
      let (x, v, encoded, h3) = >>=-eq-ok (lift (marshaled (c.encode s))) _ u h2 in
      let (is_encoded, same1) = lift-eq-ok (marshaled (c.encode s)) u encoded in
      let (is_valid, same0) = lift-eq-ok (validate s) w valid in
      (
        is_valid,
        x,
        marshaled-eq-ok (c.encode s) is_encoded,
        write-chmod-eq-ok (path dir) x state_file_mode (write_failed (path dir))
              (chmod_failed (path dir)) v h3
            ∙ ap (λ (y : World). put y (path dir) x state_file_mode)
                (same1 ∙ mkdir_all-eq-ok dir (mkdir_failed dir) w0 made ∙ same0),
      )

  load-eq-contents :
      (dir : Text) (w : World) (s : State) {x : Text}
      → c.encode s ≡ some x
      → has_utf8 s ≡ true
      → w.refuses Call.to_read (path dir) ≡ false
      → load c dir (put w (path dir) x state_file_mode)
        ≡ (ok (visible s), put w (path dir) x state_file_mode)
  unfolding load read_file
  load-eq-contents dir w s e u r =
      rw (r, update_self w.file (path dir) _) (rw (c.decode-encode s e u))

  -- What `Save` has stored `Load` returns unchanged, in any state of the store before, where the
  -- texts of the state are valid UTF-8 and the file can be read.
  pub load-save :
      (dir : Text) (s : State) (w : World) {t : Unit {0}} {w' : World}
      → save c dir s w ≡ (ok t, w')
      → has_utf8 s ≡ true
      → w.refuses Call.to_read (path dir) ≡ false
      → load c dir w' ≡ (ok s, w')
  load-save dir s w {t} {w'} h u r =
      let (is_valid, _, encoded, ew) = save_ok dir s w h in
      ap (load c dir) ew
      ∙ load-eq-contents dir w s encoded u r
      ∙ (λ i. (ok (valid_visible s is_valid i), sym ew i))

  -- A state with a private key, a password or a token is refused before anything is written.
  pub save_credential :
      (dir : Text) (s : State) (w : World)
      → has_no_credential s ≡ false
      → (is_ok (save c dir s w).0 ≡ false) × ((save c dir s w).1 ≡ w)
  unfolding save validate
  save_credential dir s w h = (ground arith, ground arith)

  -- After a successful `Clear` there is no session, unless the file cannot be read.
  pub load-clear :
      (dir : Text) (w : World) {t : Unit {0}} {w' : World}
      → clear dir w ≡ (ok t, w')
      → w.refuses Call.to_read (path dir) ≡ false
      → load c dir w' ≡ (err session_not_found, w')
  unfolding clear load read_file
  load-clear dir w {t} {w'} h r =
      let (_, ew) = remove-eq-some w (path dir) (act-eq-ok (λ x. remove x (path dir)) _ w h) in
      let empty : World = record w { file = update w.file (path dir) none } in
      let nothing : load c dir empty ≡ (err session_not_found, empty) =
        rw (r, update_self w.file (path dir) none) refl in
      subst (λ (x : World). load c dir x ≡ (err session_not_found, x)) (sym ew) nothing

-- `Clear` can be repeated: the second call finds nothing to remove and succeeds.
pub clear-clear :
    (dir : Text) (w : World) {t : Unit {0}} {w' : World}
    → clear dir w ≡ (ok t, w')
    → clear dir w' ≡ (ok tt, w')
unfolding clear
clear-clear dir w {t} {w'} h =
    rw (remove-remove w (path dir) (act-eq-ok (λ x. remove x (path dir)) _ w h)) refl
