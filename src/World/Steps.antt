-- ===== src/World/Steps.antt =====
-- Actions that may fail and change the machine, as a monad.
use dev_connect.Prelude.{Option, none, some}
use dev_connect.Result.{Error, Result, ok, err}
use dev_connect.World.{World}

-- The machine after the action is kept also where the action fails.
abbrev pub M {ℓ} : Type ℓ → Type ℓ
M A = World → Result A × World

abbrev pub resume {ℓ κ} : {A : Type ℓ} {B : Type κ} → (A → M B) → Result A → M B
resume f (ok a) w = f a w
resume f (err e) w = (err e, w)

infixl 5 ◌>>=◌ ◌>>◌
abbrev pub ◌>>=◌ {ℓ κ} : {A : Type ℓ} {B : Type κ} → M A → (A → M B) → M B
◌>>=◌ m f w = resume f (m w).0 (m w).1

abbrev pub ◌>>◌ {ℓ} : {B : Type ℓ} → M (Unit {0}) → M B → M B
m >> k = m >>= λ _. k

abbrev pub pure {ℓ} : {A : Type ℓ} → A → M A
pure a w = (ok a, w)

abbrev pub raise {ℓ} : {A : Type ℓ} → Error → M A
raise e w = (err e, w)

abbrev pub lift {ℓ} : {A : Type ℓ} → Result A → M A
lift r w = (r, w)

abbrev pub done_or : Error → World → Option World → Result (Unit {0}) × World
done_or e w none = (err e, w)
done_or e w (some w') = (ok tt, w')

-- A system call, and the error that the program makes of its failure.
abbrev pub act : (World → Option World) → Error → M (Unit {0})
act call e w = done_or e w (call w)

-- `_ = f()`
abbrev pub ignore : M (Unit {0}) → M (Unit {0})
ignore m w = (ok tt, (m w).1)
