-- ===== src/Base/Lacks.antt =====
-- Bytes that do not hold a certain one.
use Prim.Native.Nat.{ℕ}
use mathlib.Core.Path.{◌≡◌, refl}
use mathlib.Core.Logic.{inl, inr}
use mathlib.Core.Bool.{Bool, true, false, not, ◌&&◌}
use mathlib.Core.List.{List, [], ◌∷◌}
use native.Mathlib.Omega.{arith}
use viewglob.Base.Tests.{◌==◌, Bool-cases}

abbrev pub lacks : ℕ → List ℕ → Bool
lacks c [] = true
lacks c (b ∷ s) = not (b == c) && lacks c s

pub equal_to_itself : (a : ℕ) → (a == a) ≡ true
equal_to_itself a = elim (Bool-cases (a == a)) [ inl y ↦ y | inr n ↦ absurd (ground arith) ]

pub other_first : (d c : ℕ) (s : List ℕ) → lacks d (c ∷ s) ≡ true → (c == d) ≡ false
other_first d c s h = split (c == d) h
  where
    split : (b : Bool) → (not b && lacks d s) ≡ true → b ≡ false
    split true k = cc k
    split false k = refl

pub other_rest : (d c : ℕ) (s : List ℕ) → lacks d (c ∷ s) ≡ true → lacks d s ≡ true
other_rest d c s h = split (c == d) h
  where
    split : (b : Bool) → (not b && lacks d s) ≡ true → lacks d s ≡ true
    split true k = cc k
    split false k = k
