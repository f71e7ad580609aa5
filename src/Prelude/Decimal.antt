-- ===== src/Prelude/Decimal.antt =====
-- Decimal numerals, as `%d` and strconv print them.
use Prim.Native.Nat.{ℕ, zero, suc, ◌+◌, ◌/◌, ◌%◌}
use mathlib.Core.List.{List, [], ◌∷◌}
use cs426_spring2023_labs.Prelude.Tests.{ltb, if◌then◌else◌}
use cs426_spring2023_labs.Prelude.Int.{ℤ, pos, negsuc}

-- Digits are put in front of those already there; the number bounds its own digits.
digits : ℕ → ℕ → List ℕ → List ℕ
digits zero n acc = (n % 10 + 48) ∷ acc
digits (suc fuel) n acc =
    let more = digits fuel (n / 10) ((n % 10 + 48) ∷ acc) in
    if ltb n 10 then (n + 48) ∷ acc else more

unfoldable pub decimal : ℕ → List ℕ
unfolding digits
decimal n = digits n n []

unfoldable pub decimalℤ : ℤ → List ℕ
unfolding decimal
decimalℤ (pos n) = decimal n
decimalℤ (negsuc n) = 45 ∷ decimal (suc n)
