-- ===== src/Base/Bytes.antt =====
-- Byte strings: their equality, which `strcmp` decides, and strings without a NUL inside.
use Prim.Native.Nat.{ℕ, ◌<◌}
use lemon.Base.Tests.{◌==◌, if◌then◌else◌}
use mathlib.Core.Bool.{Bool, true, false}
use mathlib.Core.List.{List, [], ◌∷◌}
use mathlib.Core.Path.{◌≡◌, refl}
use native.Mathlib.Omega.{arith}

-- A byte string with no NUL inside.
abbrev pub NoNul : List ℕ → Type 0
NoNul [] = Unit {0}
NoNul (c ∷ s) = (0 < c) × NoNul s

unfoldable pub bytes_eq : List ℕ → List ℕ → Bool
bytes_eq [] [] = true
bytes_eq [] (y ∷ b) = false
bytes_eq (x ∷ a) [] = false
bytes_eq (x ∷ a) (y ∷ b) = if x == y then bytes_eq a b else false

pub bytes_eq_eq : (a b : List ℕ) → bytes_eq a b ≡ true → a ≡ b
unfolding bytes_eq
bytes_eq_eq [] [] h = refl
bytes_eq_eq [] (y ∷ b) h = cc
bytes_eq_eq (x ∷ a) [] h = cc
bytes_eq_eq (x ∷ a) (y ∷ b) h = ground (arith, bytes_eq_eq a b)

pub bytes_eq_refl : (a : List ℕ) → bytes_eq a a ≡ true
unfolding bytes_eq
bytes_eq_refl [] = refl
bytes_eq_refl (x ∷ a) = ground (arith, bytes_eq_refl a)
