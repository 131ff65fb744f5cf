-- ===== src/Prelude/Exec.antt =====
-- Code that changes a state and may meet undefined behaviour, such as a call through a null
-- pointer: `none` is such a fault.
use mathlib.Core.Option.{Option, none, some}

abbrev pub Exec : Type 0 → Type 0 → Type 0
Exec S A = S → Option (A × S)

abbrev pub pure : {S A : Type 0} → A → Exec S A
pure a s = some (a, s)

abbrev pub fault : {S A : Type 0} → Exec S A
fault s = none

infixl 5 ◌>>=◌ ◌>>◌
abbrev pub ◌>>=◌ : {S A B : Type 0} → Exec S A → (A → Exec S B) → Exec S B
◌>>=◌ m f s = elim (m s) [ none ↦ none | some (a, s') ↦ f a s' ]

abbrev pub ◌>>◌ : {S A B : Type 0} → Exec S A → Exec S B → Exec S B
m >> k = m >>= λ _. k
