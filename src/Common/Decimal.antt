-- ===== src/Common/Decimal.antt =====
-- The decimal text of a number, as `fmt` and `text/template` print an integer.
use Prim.Native.Nat.{ℕ, zero, suc, ◌+◌, ◌-◌, ◌*◌, ◌/◌, ◌%◌, ◌<◌}
use mathlib.Core.List.{[], ◌∷◌, ◌++◌}
use mathlib.Core.Path.{◌≡◌, refl}
use mathlib.Core.Logic.{inl, inr}
use native.Mathlib.Omega.{arith}
use coredns_manager_operator.Common.Tests.{Bool-cases, ltb, if◌then◌else◌}
use coredns_manager_operator.Common.Lists.{All-append}
use coredns_manager_operator.Common.Text.{Text, newline}
use coredns_manager_operator.Common.Text.Lines.{Lacks}

-- The last digits of a number, as many as the fuel allows.
decimal_loop : ℕ → ℕ → Text
decimal_loop zero n = []
decimal_loop (suc f) n =
    let rest = decimal_loop f (n / 10) in
    if ltb n 10 then (48 + n) ∷ [] else rest ++ (48 + n % 10) ∷ []

-- A number has fewer digits than its successor counts.
unfoldable pub decimal : ℕ → Text
unfolding decimal_loop
decimal n = decimal_loop (suc n) n

-- The number that digits stand for, behind the number of the digits in front of them.
unfoldable pub value_loop : ℕ → Text → ℕ
value_loop n [] = n
value_loop n (c ∷ s) = value_loop (n * 10 + (c - 48)) s

unfoldable pub value_of : Text → ℕ
unfolding value_loop
value_of = value_loop 0

value_loop-snoc :
    (n : ℕ) (s : Text) (c : ℕ) → value_loop n (s ++ c ∷ []) ≡ value_loop n s * 10 + (c - 48)
unfolding value_loop
value_loop-snoc n [] c = refl
value_loop-snoc n (d ∷ s) c = value_loop-snoc (n * 10 + (d - 48)) s c

value_of-decimal_loop : (f n : ℕ) → n < f → value_of (decimal_loop f n) ≡ n
unfolding decimal_loop value_of
value_of-decimal_loop zero n h = absurd (omega arith)
value_of-decimal_loop (suc f) n h = elim (Bool-cases (ltb n 10)) [
  | inl small ↦ rw small (omega arith)
  | inr large ↦ rw (large, value_loop-snoc) (ground (arith, value_of-decimal_loop f (n / 10)))
]

-- The fuel is enough: the text stands for the number.
pub value_of-decimal : (n : ℕ) → value_of (decimal n) ≡ n
unfolding decimal
value_of-decimal n = value_of-decimal_loop (suc n) n (omega arith)

decimal_loop-Lacks : (f n : ℕ) → Lacks newline (decimal_loop f n)
unfolding decimal_loop
decimal_loop-Lacks zero n = tt
decimal_loop-Lacks (suc f) n = elim (Bool-cases (ltb n 10)) [
  | inl small ↦ rw small (omega arith)
  | inr large ↦ rw large (All-append _ _ _ (decimal_loop-Lacks f (n / 10)) (omega arith))
]

pub decimal-Lacks : (n : ℕ) → Lacks newline (decimal n)
unfolding decimal
decimal-Lacks n = decimal_loop-Lacks (suc n) n
