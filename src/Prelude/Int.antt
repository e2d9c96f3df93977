-- ===== src/Prelude/Int.antt =====
-- Go's `int` where it may be negative. `negsuc n` is -(n + 1).
use Prim.Native.Nat.{ℕ}
use mathlib.Core.Bool.{Bool, true, false}
use mathlib.Core.Path.{◌≡◌, ap}
use microceph.Prelude.Tests.{ltb, eqb, eqb_iff}

pub data ℤ : Type 0 where
  pos : ℕ → ℤ
  negsuc : ℕ → ℤ

abbrev pub ltb_int : ℤ → ℤ → Bool
ltb_int (pos a) (pos b) = ltb a b
ltb_int (pos a) (negsuc b) = false
ltb_int (negsuc a) (pos b) = true
ltb_int (negsuc a) (negsuc b) = ltb b a

abbrev pub eqb_int : ℤ → ℤ → Bool
eqb_int (pos a) (pos b) = eqb a b
eqb_int (negsuc a) (negsuc b) = eqb a b
eqb_int _ _ = false

pub eqb_int-eq : (a b : ℤ) → eqb_int a b ≡ true → a ≡ b
eqb_int-eq (pos a) (pos b) h = ap pos ((eqb_iff a b).0 h)
eqb_int-eq (pos a) (negsuc b) h = let bad : false ≡ true = h in cc
eqb_int-eq (negsuc a) (pos b) h = let bad : false ≡ true = h in cc
eqb_int-eq (negsuc a) (negsuc b) h = ap negsuc ((eqb_iff a b).0 h)
