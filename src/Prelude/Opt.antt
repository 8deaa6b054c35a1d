-- ===== src/Prelude/Opt.antt =====
-- Sequencing of steps that may have no result: a read through NULL or outside an array, or a
-- walk that does not end.
use mathlib.Core.Path.{◌≡◌}
use native.Mathlib.Omega.{arith}
use mathlib.Core.Option.{Option, none, some}
use Prim.Native.Nat.{ℕ, compare, Ordering}
use mathlib.Core.Bool.{Bool, true, false}

module _ {ℓ κ} {A : Type ℓ} {B : Type κ} where
  infixl 5 ◌>>=◌
  abbrev pub ◌>>=◌ : Option A → (A → Option B) → Option B
  none >>= f = none
  some a >>= f = f a

abbrev pub map_opt {ℓ κ} : {A : Type ℓ} {B : Type κ} → (A → B) → Option A → Option B
map_opt f none = none
map_opt f (some a) = some (f a)

-- Is the nullable pointer `o` the address `q`?
abbrev pub is_ptr : Option ℕ → ℕ → Bool
is_ptr none q = false
is_ptr (some p) q = elim (compare p q) [ Ordering.eq ↦ true | _ ↦ false ]

pub eq_of_is_ptr : (o : Option ℕ) (q : ℕ) → is_ptr o q ≡ true → o ≡ some q
eq_of_is_ptr none q h = cc
eq_of_is_ptr (some p) q h = ground arith
