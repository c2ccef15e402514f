-- ===== src/Prelude/Decimal.antt =====
-- The decimal print of a number, as the verb `%d` of package `fmt` writes it.
use Prim.Native.Nat.{ℕ, zero, suc, ◌+◌, ◌-◌, ◌*◌, ◌/◌, ◌%◌, ◌<◌}
use mathlib.Core.List.{[], ◌∷◌, ◌++◌}
use mathlib.Core.Path.{◌≡◌, refl, ap, sym, ◌∙◌}
use native.Mathlib.Omega.{arith}
use victoriametrics_data_mig.Prelude.Tests.{ltb, Bool-cases, if◌then◌else◌}
use victoriametrics_data_mig.Prelude.Strings.{Text, codes}
use mathlib.Core.Logic.{inl, inr}

-- A number has fewer digits than the fuel `suc n`.
digits : ℕ → ℕ → Text
digits zero n = []
digits (suc fuel) n =
    let rest = digits fuel (n / 10) ++ (b'0' + n % 10) ∷ [] in
    if ltb n 10 then (b'0' + n) ∷ [] else rest

unfoldable pub decimal : ℕ → Text
unfolding digits
decimal n = digits (suc n) n

read : ℕ → Text → ℕ
read acc [] = acc
read acc (c ∷ s) = read (acc * 10 + (c - b'0')) s

read-append : (acc c : ℕ) (s : Text) → read acc (s ++ c ∷ []) ≡ read acc s * 10 + (c - b'0')
unfolding read
read-append acc c [] = refl
read-append acc c (d ∷ s) = read-append (acc * 10 + (d - b'0')) c s

read-digits : (fuel n : ℕ) → n < fuel → read 0 (digits fuel n) ≡ n
unfolding digits
read-digits zero n h = absurd (omega arith)
read-digits (suc fuel) n h = elim (Bool-cases (ltb n 10)) [
  | inl small ↦ unfold read in rw small (ground arith)
  | inr large ↦
      let smaller : n / 10 < fuel = ground arith in
      rw large (
        omega (
          arith,
          read-append 0 (b'0' + n % 10) (digits fuel (n / 10)),
          read-digits fuel (n / 10) smaller,
        ))
]

-- Different numbers are written differently.
pub decimal_injective : (m n : ℕ) → decimal m ≡ decimal n → m ≡ n
unfolding decimal
decimal_injective m n e =
    sym (read-digits (suc m) m (omega arith)) ∙ ap (read 0) e ∙ read-digits (suc n) n (omega arith)

decimal_2026 : decimal 2026 ≡ codes "2026"
unfolding decimal
decimal_2026 = refl
