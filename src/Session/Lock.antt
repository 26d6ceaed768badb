-- ===== src/Session/Lock.antt =====
-- internal/session/session.go: the lock file.
use dev_connect.Prelude.{
  Bool, true, false, not, none, some, ◌≡◌, sym, ap, ◌∙◌, arith, if◌then◌else◌, [], Option-cases,
  inl, inr,
}
use dev_connect.Text.{Text}
use dev_connect.Result.{
  Result, ok, err, session_locked, acquire_lock_failed, close_failed, remove_failed,
}
use dev_connect.World.{
  World, File, Call, create_exclusive, CreateResult, created, exists, not_created, remove, update,
  update_self,
}
use dev_connect.World.Steps.{M, act}

-- `file` is set as long as the lock file is open.
pub record Lock : Type 0 where
  pub path : Text
  pub is_open : Bool

abbrev acquired : Text → World → CreateResult → Result Lock × World
acquired p w (created w') = (ok (record { path = p; is_open = true }), w')
acquired p w exists = (err session_locked, w)
acquired p w not_created = (err (acquire_lock_failed p), w)

unfoldable pub acquire_lock : Text → M Lock
unfolding create_exclusive
acquire_lock p w = acquired p w (create_exclusive w p 0o600)

-- The lock after the call, and what the call returns.
unfoldable pub release : Lock → World → Lock × (Result (Unit {0}) × World)
unfolding remove
release l w =
    if not l.is_open
    then (l, (ok tt, w))
    else if w.refuses Call.to_close l.path
    then (l, (err (close_failed l.path), w))
    else (record l { is_open = false }, act (λ x. remove x l.path) (remove_failed l.path) w)

acquire_lock-eq-ok :
    (p : Text) (w : World) {l : Lock} {w' : World}
    → acquire_lock p w ≡ (ok l, w')
    → (l ≡ record { path = p; is_open = true })
      × (w' ≡ record w { file = update w.file p (some (record { content = []; mode = 0o600 })) })
unfolding acquire_lock create_exclusive
acquire_lock-eq-ok p w h = elim (Option-cases (w.file p)) [
  | inl e ↦ (ground arith, ground arith)
  | inr (f, e) ↦ (ground arith, ground arith)
]

acquire_lock_taken :
    (p : Text) (w : World) {f : File}
    → w.file p ≡ some f
    → acquire_lock p w ≡ (err session_locked, w)
unfolding acquire_lock create_exclusive
acquire_lock_taken p w e = ground arith

acquire_lock_free :
    (p : Text) (w : World)
    → w.file p ≡ none
    → w.refuses Call.to_create p ≡ false
    → (acquire_lock p w).0 ≡ ok (record { path = p; is_open = true })
unfolding acquire_lock create_exclusive
acquire_lock_free p w e c = ground arith

-- Whoever has acquired the lock holds it alone: a second attempt is told that it is taken, and
-- changes nothing.
pub acquire_lock-acquire_lock :
    (p : Text) (w : World) {l : Lock} {w' : World}
    → acquire_lock p w ≡ (ok l, w')
    → acquire_lock p w' ≡ (err session_locked, w')
acquire_lock-acquire_lock p w {l} {w'} h =
    let (_, ew) = acquire_lock-eq-ok p w h in
    acquire_lock_taken p w' (ap (λ (x : World). x.file p) ew ∙ update_self w.file p _)

release-eq-ok :
    (l : Lock) (w : World) {t : Unit {0}}
    → l.is_open ≡ true
    → (release l w).1.0 ≡ ok t
    → ((release l w).0 ≡ record l { is_open = false })
      × ((release l w).1.1 ≡ record w { file = update w.file l.path none })
unfolding release remove
release-eq-ok l w o h = (ground arith, ground arith)

release_closed : (l : Lock) (w : World) → l.is_open ≡ false → release l w ≡ (l, (ok tt, w))
unfolding release
release_closed l w o = rw o

-- After a successful release of a lock that was acquired the lock can be acquired again, where the
-- system allows to create the file, and a second release does nothing.
pub acquire_lock-release :
    (p : Text) (w : World) {l : Lock} {w' : World} {t : Unit {0}}
    → acquire_lock p w ≡ (ok l, w')
    → (release l w').1.0 ≡ ok t
    → w'.refuses Call.to_create p ≡ false
    → ((acquire_lock p (release l w').1.1).0 ≡ ok l)
      × (release (release l w').0 (release l w').1.1
          ≡ ((release l w').0, (ok tt, (release l w').1.1)))
acquire_lock-release p w {l} {w'} h r c =
    let (el, ew) = acquire_lock-eq-ok p w h in
    let (closed, gone) = release-eq-ok l w' (ap (λ (x : Lock). x.is_open) el) r in
    let named = ap (λ (x : Lock). x.path) el in
    (
      acquire_lock_free p (release l w').1.1
            (ap (λ (x : World). x.file p) gone
              ∙ ap (λ x. update w'.file x none p) named
              ∙ update_self w'.file p none)
            (ap (λ (x : World). x.refuses Call.to_create p) gone ∙ c)
          ∙ ap ok (sym el),
      release_closed (release l w').0 (release l w').1.1 (ap (λ (x : Lock). x.is_open) closed),
    )
