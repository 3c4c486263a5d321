-- ===== src/Text/Percentage.antt =====
-- src/text/percentage.go: gauges of five blocks.
use prompto.Prelude.{
  ℕ, zero, suc, ◌-◌, ◌*◌, ◌/◌, ◌≤◌, ◌≡◌, refl, ◌∙◌, ap, List, ◌++◌, min, arith, replicate, length,
  length-append,
}
use prompto.Prelude.Int.{ℤ, max_zero}

-- `▰` and `▱`.
pub data Block : Type 0 where
  filled empty : Block

unfoldable pub clamp : ℤ → ℕ
clamp p = min (max_zero p) 100

abbrev bar : ℕ → List Block
bar n = replicate n filled ++ replicate (5 - n) empty

unfoldable pub gauge : ℤ → List Block
unfolding clamp
gauge p = bar ((100 - clamp p) * 5 / 100)

unfoldable pub gauge_used : ℤ → List Block
unfolding clamp
gauge_used p = bar (clamp p * 5 / 100)

length-replicate : (n : ℕ) (b : Block) → length (replicate n b) ≡ n
length-replicate zero b = refl
length-replicate (suc n) b = ap suc (length-replicate n b)

length-bar : (n : ℕ) → n ≤ 5 → length (bar n) ≡ 5
length-bar n le =
    length-append (replicate n filled) (replicate (5 - n) empty)
    ∙ omega (arith, length-replicate n filled, length-replicate (5 - n) empty)

-- Both gauges have five blocks, whatever the percentage.
pub length-gauge : (p : ℤ) → (length (gauge p) ≡ 5) × (length (gauge_used p) ≡ 5)
unfolding gauge gauge_used
length-gauge p = (
  length-bar ((100 - clamp p) * 5 / 100) (omega arith),
  length-bar (clamp p * 5 / 100) (omega arith),
)
