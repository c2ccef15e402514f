-- ===== src/Prelude/Floats.antt =====
-- Go's float64, as a parameter of the code that computes with it.
use Prim.Native.Nat.{ℕ, ◌+◌, ◌-◌, ◌*◌, ◌/◌}
use mathlib.Core.Bool.{Bool}
use victoriametrics_data_mig.Prelude.Int.{ℤ, pos, negsuc}
use victoriametrics_data_mig.Prelude.Tests.{ltb, leb, ◌==◌}

-- `of_int` and `to_int` are the conversions, and `ratio m n` the constant nearest to m / n.
pub record Float : Type 1 where
  pub Carrier : Type 0
  pub of_int : ℤ → Carrier
  pub to_int : Carrier → ℤ
  pub ratio : ℕ → ℕ → Carrier
  pub add : Carrier → Carrier → Carrier
  pub sub : Carrier → Carrier → Carrier
  pub mul : Carrier → Carrier → Carrier
  pub div : Carrier → Carrier → Carrier
  pub less : Carrier → Carrier → Bool
  pub leq : Carrier → Carrier → Bool
  pub equal : Carrier → Carrier → Bool

-- A float64 to run the code with: numbers from 0 up, in thousandths.
abbrev pub thousandths : Float
thousandths = record {
  Carrier = ℕ;
  of_int = λ n. elim n [ pos m ↦ 1000 * m | negsuc m ↦ 0 ];
  to_int = λ x. pos (x / 1000);
  ratio = λ m n. 1000 * m / n;
  add = λ x y. x + y;
  sub = λ x y. x - y;
  mul = λ x y. x * y / 1000;
  div = λ x y. 1000 * x / y;
  less = ltb;
  leq = leb;
  equal = λ x y. x == y;
}
