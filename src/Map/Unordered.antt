-- ===== src/Map/Unordered.antt =====
-- Go's `map[string]T` as it is specified: its entries, in no order.
use mathlib.Core.Quot
use mathlib.Core.Quot.{Quot, Quot-set}
use dev_connect.Prelude.{Option, List}
use dev_connect.Text.{Text}
use dev_connect.Map.{lookup}
use dev_connect.Map.Order.{Reordered, keys, sort_strings, lookup-Reordered, sort_strings-Reordered}

abbrev pub Unordered {ℓ} : Type ℓ → Type ℓ
Unordered A = Quot (Reordered A)

-- The names of a loop over the map, behind `sort.Strings`.
unfoldable pub sorted_keys {ℓ} : {A : Type ℓ} → Unordered A → List Text
unfolding keys sort_strings
sorted_keys = Quot.lift (hlevel) (λ m. sort_strings (keys m)) (λ m n r. sort_strings-Reordered r)

-- `v, ok := m[k]`
unfoldable pub find {ℓ} : {A : Type ℓ} → IsSet A → Text → Unordered A → Option A
unfolding lookup
find s key = Quot.lift (hlevel) (lookup key) (λ m n r. lookup-Reordered r key)
