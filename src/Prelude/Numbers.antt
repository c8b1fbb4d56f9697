-- ===== src/Prelude/Numbers.antt =====
-- Go's `int` as the integers of either sign, and the decimal digits of a number.
use Prim.Native.Nat.{ℕ, zero, suc, ◌/◌, ◌%◌}
use Prim.Native.String.{String, ◌++◌ as ◌<>◌}
use mathlib.Core.Bool.{Bool, false}
use mathlib.Core.Path.{◌≡◌, refl}
use alex_cachyos.Prelude.Tests.{beq_nat, ltb, if◌then◌else◌}

-- `negsuc n` is -(n + 1).
pub data ℤ : Type 0 where
  pos : ℕ → ℤ
  negsuc : ℕ → ℤ

abbrev pub is_pos : ℤ → ℕ → Bool
is_pos (pos m) n = beq_nat m n
is_pos (negsuc _) n = false

abbrev digit : ℕ → String
digit zero = "0"
digit (suc zero) = "1"
digit (suc (suc zero)) = "2"
digit (suc (suc (suc zero))) = "3"
digit (suc (suc (suc (suc zero)))) = "4"
digit (suc (suc (suc (suc (suc zero))))) = "5"
digit (suc (suc (suc (suc (suc (suc zero)))))) = "6"
digit (suc (suc (suc (suc (suc (suc (suc zero))))))) = "7"
digit (suc (suc (suc (suc (suc (suc (suc (suc zero)))))))) = "8"
digit _ = "9"

-- The digits of `n`; each round drops one, so that `n` rounds are enough.
decimal_within : ℕ → ℕ → String
decimal_within zero n = digit n
decimal_within (suc rounds) n =
    let front = decimal_within rounds (n / 10) in
    if ltb n 10 then digit n else front <> digit (n % 10)

-- `%d`
unfoldable pub decimal : ℕ → String
unfolding decimal_within
decimal n = decimal_within n n

decimal_example : decimal 4071 ≡ "4071"
unfolding decimal
decimal_example = refl
