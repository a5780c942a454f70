-- ===== src/Base/Keys.antt =====
-- Byte strings as the keys of a map, and maps as functions.
use Prim.Native.Nat.{ℕ}
use mathlib.Core.Path.{◌≡◌, refl}
use mathlib.Core.Bool.{Bool, true, false, ◌&&◌}
use mathlib.Core.List.{List, [], ◌∷◌}
use mathlib.Core.Option.{Option, some}
use native.Mathlib.Omega.{arith}
use fast_gdb.Base.Tests.{◌==◌, if◌then◌else◌}

unfoldable pub key_eq : List ℕ → List ℕ → Bool
key_eq [] [] = true
key_eq [] (y ∷ ys) = false
key_eq (x ∷ xs) [] = false
key_eq (x ∷ xs) (y ∷ ys) = x == y && key_eq xs ys

pub eq_of_key_eq : (xs ys : List ℕ) → key_eq xs ys ≡ true → xs ≡ ys
unfolding key_eq
eq_of_key_eq [] [] h = refl
eq_of_key_eq [] (y ∷ ys) h = absurd (cc)
eq_of_key_eq (x ∷ xs) [] h = absurd (cc)
eq_of_key_eq (x ∷ xs) (y ∷ ys) h = ground (arith, eq_of_key_eq xs ys)

pub key_eq_refl : (xs : List ℕ) → key_eq xs xs ≡ true
unfolding key_eq
key_eq_refl [] = refl
key_eq_refl (x ∷ xs) = ground (arith, key_eq_refl xs)

-- `m[k] = v`.
unfoldable pub update {ℓ} : {V : Type ℓ} → (List ℕ → Option V) → List ℕ → V → List ℕ → Option V
unfolding key_eq
update m k v j = if key_eq k j then some v else m j
