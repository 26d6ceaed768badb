-- ===== src/Session/Windows.antt =====
-- internal/session/process_windows.go. `opens` is the call `OpenProcess`, which finds a process that
-- runs by the 32 bits of its number; `run` is a run of a program with its arguments.
use dev_connect.Prelude.{ℕ, zero, suc, ◌%◌, ◌^◌, Bool, false, List, [], ◌∷◌, ℤ, pos, negsuc}
use dev_connect.Text.{Text, codes}
use dev_connect.Text.Numbers.{decimal_int}

unfoldable pub process_exists_on_windows : (ℕ → Bool) → ℤ → Bool
process_exists_on_windows opens (pos zero) = false
process_exists_on_windows opens (pos (suc n)) = opens (suc n % 2 ^ 32)
process_exists_on_windows opens (negsuc n) = false

-- `taskkill` ends the process and those that it has started.
unfoldable pub terminate_process_on_windows {ℓ} : {A : Type ℓ} → (Text → List Text → A) → ℤ → A
unfolding decimal_int
terminate_process_on_windows run pid =
    run (codes "taskkill") (codes "/PID" ∷ decimal_int pid ∷ codes "/T" ∷ codes "/F" ∷ [])
