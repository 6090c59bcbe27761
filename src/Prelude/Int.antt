-- ===== src/Prelude/Int.antt =====
-- Signed integers, and the equality of options that the code compares.
use Prim.Native.Nat.{ℕ}
use mathlib.Core.Path.{◌≡◌}
use mathlib.Core.Logic.{◌↔◌}
use mathlib.Core.Bool.{Bool, true, false}
use mathlib.Core.Option.{Option, none, some}
use native.Mathlib.Omega.{arith}
use zj_radar.Prelude.Tests.{◌==◌}

-- `negsuc n` is -(n + 1).
pub data ℤ : Type 0 where
  pos : ℕ → ℤ
  negsuc : ℕ → ℤ

abbrev pub eq_int : ℤ → ℤ → Bool
eq_int (pos a) (pos b) = a == b
eq_int (negsuc a) (negsuc b) = a == b
eq_int _ _ = false

abbrev pub eq_option_int : Option ℤ → Option ℤ → Bool
eq_option_int none none = true
eq_option_int (some a) (some b) = eq_int a b
eq_option_int _ _ = false

pub eq_option_int_iff : (a b : Option ℤ) → (eq_option_int a b ≡ true) ↔ (a ≡ b)
eq_option_int_iff a b = ground arith

pub eq_option_int_refl : (a : Option ℤ) → eq_option_int a a ≡ true
eq_option_int_refl a = ground arith
