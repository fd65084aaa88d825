-- ===== src/Base/Arrays.antt =====
-- Arrays of the program as functions from the index; the bounds are theorems of the modules that
-- use them.
use Prim.Native.Nat.{ℕ, zero, suc}
use mathlib.Core.Path.{◌≡◌, refl}
use mathlib.Core.Logic.{◌≢◌}
use mathlib.Core.Option.{Option, none, some}
use mathlib.Core.List.{List, [], ◌∷◌}
use native.Mathlib.Omega.{arith}
use simple_microkernel.Base.Tests.{◌==◌, if◌then◌else◌}

module _ {ℓ} {A : Type ℓ} where
  -- `f[i] = v`
  unfoldable pub update : (ℕ → A) → ℕ → A → ℕ → A
  update f i v j = if j == i then v else f j

  -- `for (i = start; i < start + count; i++) a = body(i, a)`
  unfoldable pub array_loop : (ℕ → A → A) → ℕ → ℕ → A → A
  array_loop body start zero a = a
  array_loop body start (suc n) a = array_loop body (suc start) n (body start a)

  pub update_lem :
      (f : ℕ → A) (i : ℕ) (v : A) (j : ℕ) → update f i v j ≡ (if j == i then v else f j)
  unfolding update
  update_lem f i v j = refl

  pub update_self : (f : ℕ → A) (i : ℕ) (v : A) → update f i v i ≡ v
  unfolding update
  update_self f i v = ground arith

  pub update_ne : (f : ℕ → A) (i : ℕ) (v : A) (j : ℕ) → j ≢ i → update f i v j ≡ f j
  unfolding update
  update_ne f i v j h = ground arith

-- the number of items, as a native number
abbrev pub length {ℓ} : {A : Type ℓ} → List A → ℕ
length [] = 0
length (_ ∷ xs) = suc (length xs)

-- Chains of results that may be missing, for do blocks.
infixl 5 ◌>>=◌
abbrev pub ◌>>=◌ {ℓ κ} : {A : Type ℓ} {B : Type κ} → Option A → (A → Option B) → Option B
some a >>= f = f a
none >>= f = none
