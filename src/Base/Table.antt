-- ===== src/Base/Table.antt =====
-- `std::map` and `std::unordered_map`, as the partial function from keys to values that `find`,
-- `erase`, `operator[]` and `insert` read and write. The order of the keys is not represented.
use mathlib.Core.Logic.{ite}
use mathlib.Core.Option.{Option, none, some}

abbrev pub Table {ℓ κ} : Type ℓ → Type κ → Type (ℓ ⊔ κ)
Table K V = K → Option V

module _ {ℓ κ} {K : Type ℓ} {V : Type κ} where
  abbrev pub empty : Table K V
  empty k = none

  abbrev pub insert : Discrete K → K → V → Table K V → Table K V
  insert dec k v m j = ite (dec j k) (some v) (m j)

  abbrev pub erase : Discrete K → K → Table K V → Table K V
  erase dec k m j = ite (dec j k) none (m j)
