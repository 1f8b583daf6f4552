-- ===== src/Prelude/Decimal.antt =====
-- `str(n)` of a natural number, and that it can be read back.
use Prim.Native.Nat.{ℕ, zero, suc, ◌+◌, ◌-◌, ◌*◌, ◌/◌, ◌%◌, ◌<◌}
use mathlib.Core.Path.{◌≡◌, ap, sym, ◌∙◌}
use mathlib.Core.List.{[], ◌∷◌, ◌++◌, foldl, foldl-append}
use native.Mathlib.Omega.{arith}
use jewel.Prelude.Tests.{ltb, if◌then◌else◌, Bool-cases}
use mathlib.Core.Logic.{inl, inr}
use jewel.Prelude.Texts.{Text}

show_fuel : ℕ → ℕ → Text
show_fuel zero n = []
show_fuel (suc f) n =
    let rest = show_fuel f (n / 10) ++ ((48 + n % 10) ∷ []) in
    if ltb n 10 then (48 + n) ∷ [] else rest

unfoldable pub show : ℕ → Text
unfolding show_fuel
show n = show_fuel (suc n) n

-- The number that decimal digits stand for.
unfoldable pub read : Text → ℕ
read = foldl (λ acc c. acc * 10 + (c - 48)) 0

read-show_fuel : (f n : ℕ) → n < f → read (show_fuel f n) ≡ n
unfolding show_fuel read
read-show_fuel zero n h = elim h [ ]
read-show_fuel (suc f) n h = elim (Bool-cases (ltb n 10)) [
  | inl small ↦ rw small (omega arith)
  | inr large ↦ rw (large, foldl-append) (ground (arith, read-show_fuel f (n / 10)))
]

pub read-show : (n : ℕ) → read (show n) ≡ n
unfolding show
read-show n = read-show_fuel (suc n) n (omega arith)

-- Two numbers with the same decimal text are equal.
pub show-injective : (m n : ℕ) → show m ≡ show n → m ≡ n
show-injective m n h = sym (read-show m) ∙ ap read h ∙ read-show n
