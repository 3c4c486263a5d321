-- ===== src/Config/Responsive.antt =====
-- src/config/responsive.go: which widths of the terminal hide a segment. `width` is what
-- `env.TerminalWidth()` returns, `none` for an error.
use prompto.Prelude.{◌≡◌, Bool, true, false, ◌&&◌, ◌||◌, Option, none, some, if◌then◌else◌, arith}
use prompto.Prelude.Int.{ℤ, is_pos, ltb_ℤ, eqb_zero}

unfoldable pub should_hide_for_width : Option ℤ → ℤ → ℤ → Bool
should_hide_for_width width min_width max_width =
    if eqb_zero max_width && eqb_zero min_width then false else elim width [
      | none ↦ false
      | some w ↦
          if is_pos min_width && is_pos max_width
          then ltb_ℤ w min_width || ltb_ℤ max_width w
          else if is_pos max_width && ltb_ℤ max_width w
          then true
          else if is_pos min_width && ltb_ℤ w min_width
          then true
          else false
    ]

-- A known width hides a segment exactly if it is below a positive minimum or above a positive
-- maximum, whichever of the two are set.
pub should_hide_for_width_lem :
    (w min_width max_width : ℤ)
    → should_hide_for_width (some w) min_width max_width
      ≡ ((is_pos min_width && ltb_ℤ w min_width) || (is_pos max_width && ltb_ℤ max_width w))
unfolding should_hide_for_width
should_hide_for_width_lem w min_width max_width = ground arith
