-- ===== src/World/Frame.antt =====
-- What an action leaves alone, and what a successful one has done.
use mathlib.Core.Path.{fun_ext}
use dev_connect.Prelude.{
  ℕ, false, Option, none, some, ◌≡◌, ◌≢◌, refl, sym, ap, subst, ◌∙◌, arith, inl, inr, Bool-cases,
  Option-cases,
}
use dev_connect.Text.{Text, equal, equal_iff}
use dev_connect.Result.{Error, Result, ok, err}
use dev_connect.World.{
  World, File, Call, update, mode_of, write_file, chmod, update_self, remove, mkdir_all,
}
use dev_connect.World.Steps.{M, lift, pure, ◌>>=◌, ◌>>◌, act, resume}

-- A successful sequence is two successful parts.
pub >>=-eq-ok {ℓ κ} :
    {A : Type ℓ} {B : Type κ} (m : M A) (f : A → M B) (w : World) {b : B} {w' : World}
    → (m >>= f) w ≡ (ok b, w')
    → (a : A) × (u : World) × (m w ≡ (ok a, u)) × (f a u ≡ (ok b, w'))
>>=-eq-ok {A} {B} m f w {b} {w'} h = step (m w).0 refl h
  where
    step :
        (r : Result A)
        → (m w).0 ≡ r
        → ◌≡◌ {A = Result B × World} (resume f r (m w).1) (ok b, w')
        → (a : A) × (u : World) × (m w ≡ (ok a, u)) × (f a u ≡ (ok b, w'))
    step (ok a) e h = (a, (m w).1, λ i. (e i, (m w).1), h)
    step (err x) e h = cc

pub act-eq-ok :
    (call : World → Option World) (e : Error) (w : World) {t : Unit {0}} {w' : World}
    → act call e w ≡ (ok t, w')
    → call w ≡ some w'
act-eq-ok call e w h = ground arith

pub lift-eq-ok {ℓ} :
    {A : Type ℓ} (r : Result A) (w : World) {a : A} {u : World}
    → lift r w ≡ (ok a, u)
    → (r ≡ ok a) × (u ≡ w)
lift-eq-ok r w h = (λ i. (h i).0, λ i. (sym h i).1)

pub pure-eq-ok {ℓ} :
    {A : Type ℓ} (a : A) (w : World) {b : A} {u : World} → pure a w ≡ (ok b, u) → (b ≡ a) × (u ≡ w)
pure-eq-ok a w {b} h = (from_ok (λ i. (sym h i).0), λ i. (sym h i).1)
  where
    from_ok : ok b ≡ ok a → b ≡ a
    from_ok e = cc

pub mkdir_all-eq-ok :
    (p : Text) (e : Error) (w : World) {t : Unit {0}} {u : World}
    → act (λ x. mkdir_all x p) e w ≡ (ok t, u)
    → u ≡ w
unfolding mkdir_all
mkdir_all-eq-ok p e w h = ground arith

-- The file at a path is as it was, whether the action fails or not.
abbrev pub Keeps {ℓ} : {A : Type ℓ} → Text → M A → Type 0
Keeps q m = (w : World) → (m w).1.file q ≡ w.file q

pub bind-Keeps {ℓ κ} :
    {A : Type ℓ} {B : Type κ} (q : Text) (m : M A) (f : A → M B)
    → Keeps q m
    → ((a : A) → Keeps q (f a))
    → Keeps q (m >>= f)
bind-Keeps q m f hm hf w = step (m w).0
  where
    step : (r : Result _) → (resume f r (m w).1).1.file q ≡ w.file q
    step (ok a) = hf a (m w).1 ∙ hm w
    step (err e) = hm w

pub update_other :
    (files : Text → Option File) (p q : Text) (f : Option File)
    → p ≢ q
    → update files p f q ≡ files q
unfolding update
update_other files p q f ne = elim (Bool-cases (equal p q)) [
  | inl e ↦ absurd (ne ((equal_iff p q).0 e))
  | inr e ↦ rw e
]

-- The machine after a file has been put at a path, with its bytes and its mode.
abbrev pub put : World → Text → Text → ℕ → World
put w p content mode = record w {
  file = update w.file p (some (record { content = content; mode = mode }));
}

pub update-update :
    (files : Text → Option File) (p : Text) (f g : Option File)
    → update (update files p f) p g ≡ update files p g
unfolding update
update-update files p f g =
    fun_ext λ q. elim (Bool-cases (equal p q)) [ inl e ↦ rw e | inr e ↦ rw e ]

pub put-put : (w : World) (p c d : Text) (mode : ℕ) → put (put w p c mode) p d mode ≡ put w p d mode
put-put w p c d mode =
    ap (λ (files : Text → Option File). let y : World = record w { file = files } in y)
      (update-update w.file p (some (record { content = c; mode = mode }))
        (some (record { content = d; mode = mode })))

write_file-eq-some :
    (w u : World) (p content : Text) (mode : ℕ)
    → write_file w p content mode ≡ some u
    → u ≡ record w {
      file = update w.file p (some (record { content = content; mode = mode_of (w.file p) mode }));
    }
unfolding write_file
write_file-eq-some w u p content mode h = ground arith

chmod-eq-some :
    (u w' : World) (p : Text) (f : File) (mode : ℕ)
    → u.file p ≡ some f
    → chmod u p mode ≡ some w'
    → w' ≡ record u { file = update u.file p (some (record f { mode = mode })) }
unfolding chmod
chmod-eq-some u w' p f mode e h = ground arith

-- Where `os.WriteFile` and `os.Chmod` with one mode succeed, the file has the bytes and the mode,
-- and that is all that has changed.
pub write-chmod-put :
    (w u w' : World) (p content : Text) (mode : ℕ)
    → write_file w p content mode ≡ some u
    → chmod u p mode ≡ some w'
    → w' ≡ put w p content mode
write-chmod-put w u w' p content mode hw hc =
    let f : File = record { content = content; mode = mode_of (w.file p) mode } in
    let eu = write_file-eq-some w u p content mode hw in
    let at = ap (λ (x : World). x.file p) eu ∙ update_self w.file p (some f) in
    let ew = chmod-eq-some u w' p f mode at hc in
    let g : Option File = some (record { content = content; mode = mode }) in
    ew
    ∙ ap (λ (x : World). let y : World = record x { file = update x.file p g } in y) eu
    ∙ ap (λ (files : Text → Option File). let y : World = record w { file = files } in y)
        (update-update w.file p (some f) g)

-- The same two calls as one action.
pub write-chmod-eq-ok :
    (p content : Text) (mode : ℕ) (e e' : Error) (w : World) {t : Unit {0}} {w' : World}
    → (act (λ x. write_file x p content mode) e >> act (λ x. chmod x p mode) e') w ≡ (ok t, w')
    → w' ≡ put w p content mode
write-chmod-eq-ok p content mode e e' w {t} {w'} h =
    let (_, u, hw, hc) =
      >>=-eq-ok (act (λ x. write_file x p content mode) e) (λ _. act (λ x. chmod x p mode) e') w
        h in
    write-chmod-put w u w' p content mode (act-eq-ok (λ x. write_file x p content mode) e w hw)
      (act-eq-ok (λ x. chmod x p mode) e' u hc)

-- Where `os.Remove` succeeds the path holds nothing, and that is all that has changed.
pub remove-eq-some :
    (w : World) (p : Text) {w' : World}
    → remove w p ≡ some w'
    → (w.refuses Call.to_remove p ≡ false) × (w' ≡ record w { file = update w.file p none })
unfolding remove
remove-eq-some w p h = (ground arith, ground arith)

-- A path that holds nothing can be removed again, and nothing changes.
pub remove-remove :
    (w : World) (p : Text) {w' : World} → remove w p ≡ some w' → remove w' p ≡ some w'
unfolding remove
remove-remove w p {w'} h =
    let (allowed, ew) = remove-eq-some w p h in
    let once : World = record w { file = update w.file p none } in
    let again : remove once p ≡ some once = rw allowed (
      ap (λ (files : Text → Option File). some (let y : World = record w { file = files } in y))
        (update-update w.file p none none)) in
    subst (λ (x : World). remove x p ≡ some x) (sym ew) again

pub write_file-Keeps :
    (p q content : Text) (mode : ℕ) (e : Error)
    → p ≢ q
    → Keeps q (act (λ w. write_file w p content mode) e)
unfolding write_file
write_file-Keeps p q content mode e ne w = ground (
  arith,
  update_other w.file p q (some (record { content = content; mode = mode_of (w.file p) mode })),
)

pub chmod-Keeps :
    (p q : Text) (mode : ℕ) (e : Error) → p ≢ q → Keeps q (act (λ w. chmod w p mode) e)
unfolding chmod
chmod-Keeps p q mode e ne w = elim (Option-cases (w.file p)) [
  | inl none_ ↦ ground arith
  | inr (f, at) ↦ ground (arith, update_other w.file p q (some (record f { mode = mode })))
]

pub remove-Keeps : (p q : Text) (e : Error) → p ≢ q → Keeps q (act (λ w. remove w p) e)
unfolding remove
remove-Keeps p q e ne w = ground (arith, update_other w.file p q none)

pub mkdir_all-Keeps : (p q : Text) (e : Error) → Keeps q (act (λ w. mkdir_all w p) e)
unfolding mkdir_all
mkdir_all-Keeps p q e w = ground arith
