-- ===== src/Prelude/Decimal.antt =====
-- `%d` of the package fmt, for a number that is not negative.
use Prim.Native.Nat.{ℕ, zero, suc, ◌/◌, ◌%◌}
use Prim.Native.String.{String, ◌++◌ as ◌<>◌}
use mathlib.Core.List.{List, [], ◌∷◌}
use manipulate.Prelude.Tests.{ltb, if◌then◌else◌}
use manipulate.Prelude.Lists.{get_or}

abbrev digits : List String
digits = "0" ∷ "1" ∷ "2" ∷ "3" ∷ "4" ∷ "5" ∷ "6" ∷ "7" ∷ "8" ∷ "9" ∷ []

decimal_loop : ℕ → ℕ → String
decimal_loop zero n = ""
decimal_loop (suc fuel) n =
    let rest = decimal_loop fuel (n / 10) <> get_or digits (n % 10) "" in
    if ltb n 10 then get_or digits n "" else rest

-- A number has fewer digits than its successor is large.
unfoldable pub decimal : ℕ → String
unfolding decimal_loop
decimal n = decimal_loop (suc n) n
