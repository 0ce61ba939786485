-- ===== src/Base/Options.antt =====
-- Chains of steps that may fail: `none` is an access outside of an array, or a loop out of fuel.
use mathlib.Core.Option.{Option, none, some}

infixl 5 ◌>>=◌
abbrev pub ◌>>=◌ {ℓ κ} : {A : Type ℓ} {B : Type κ} → Option A → (A → Option B) → Option B
none >>= f = none
some a >>= f = f a
