-- ===== src/Common/Digits.antt =====
-- Numbers as their decimal digits.
use Prim.Native.Nat.{ℕ, zero, suc, ◌+◌, ◌/◌, ◌%◌}
use mathlib.Core.List.{[], ◌∷◌}
use rusty_gasket.Common.Tests.{◌==◌, if◌then◌else◌}
use rusty_gasket.Common.Text.{Text}

-- `u64::to_string`; 20 digits are enough.
abbrev pub digits_onto : ℕ → ℕ → Text → Text
digits_onto zero n acc = acc
digits_onto (suc fuel) n acc =
    let rest = digits_onto fuel (n / 10) ((48 + n % 10) ∷ acc) in
    if n / 10 == 0 then (48 + n % 10) ∷ acc else rest

abbrev pub decimal : ℕ → Text
decimal n = digits_onto 20 n []
