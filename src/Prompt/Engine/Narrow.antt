-- ===== src/Prompt/Engine/Narrow.antt =====
-- What a right-aligned block with a filler does in a terminal that is narrower than the block, by
-- `renderBlockWithText` of src/prompt/streaming.go.
use prompto.Prelude.{
  ℕ, suc, ◌-◌, ◌<◌, ◌≡◌, ap, ◌⊎◌, inl, inr, Bool, false, not, some, refl, arith, eqb, Bool-cases,
  ◌&&◌, ◌==◌, string_comparable,
}
use prompto.Prelude.Int.{ℤ, negsuc, ◌-ℤ◌}
use prompto.Prelude.Outcome.{panic}
use prompto.Prelude.Runes.{Runes}
use prompto.Terminal.Writer.{write_text}
use prompto.Prompt.Layout.{Block, BlockType, BlockAlignment}
use prompto.Prompt.Engine.{
  Host, Engine, Overflow, unset, break, hide, can_write_right_block, fit, place_block,
  write_right_block, write_newline, render_block_with_text, write,
}
use prompto.Prompt.Engine.Filling.{should_fill-panic}

-- The space is the width less the length, below zero.
fit-narrow :
    (width used length : ℕ)
    → 0 < width
    → width < length
    → fit width used length false ≡ (negsuc (length - width - 1), false)
unfolding fit ◌-ℤ◌
fit-narrow width used length p h = ground (arith, fit, ◌-ℤ◌)

module _ (host : Host) (block : Block) (filler_text : Runes) (k : ℕ)
    (nonempty : (block.filler == "") ≡ false)
    (rendered : (pad : ℤ) → host.render_filler block.filler pad ≡ some filler_text) where
  place_block-panic :
      (txt : Runes) (n : ℕ) (e : Engine)
      → (write_text host.terminal "" "" filler_text e.writer).length ≡ suc k
      → place_block host block txt (negsuc n) e ≡ panic
  unfolding place_block
  place_block-panic txt n e len =
      rw
        (
          place_block,
          should_fill-panic host e block.filler filler_text n k nonempty (rendered (negsuc n)) len,
        )
        refl

  no_room :
      (e : Engine) (width length : ℕ)
      → host.terminal_width ≡ some width
      → 0 < width
      → width < length
      → can_write_right_block host e length false ≡ (negsuc (length - width - 1), false)
  unfolding can_write_right_block
  no_room e width length w p h =
      let known : eqb width 0 ≡ false = ground arith in
      rw (can_write_right_block, w, known) (fit-narrow width e.current_line_length length p h)

  not_empty : (length : ℕ) {width : ℕ} → width < length → (not block.force && eqb length 0) ≡ false
  not_empty length h = ground arith

  write_right_block-panic :
      (overflow : Overflow) (txt : Runes) (width length : ℕ) (e : Engine)
      → (overflow ≡ unset) ⊎ (overflow ≡ break)
      → host.terminal_width ≡ some width
      → 0 < width
      → width < length
      → (write_text host.terminal "" "" filler_text e.writer).length ≡ suc k
      → write_right_block host block overflow txt length e ≡ panic
  unfolding write_right_block can_write_right_block write_newline write
  write_right_block-panic unset txt width length e o w p h len =
      let none_left = no_room e width length w p h in
      rw (write_right_block, ap (λ r. r.1) none_left, ap (λ r. r.0) none_left)
        (place_block-panic txt (length - width - 1) (record e { overflow = unset }) len)
  write_right_block-panic break txt width length e o w p h len =
      let none_left = no_room e width length w p h in
      rw (write_right_block, ap (λ r. r.1) none_left, ap (λ r. r.0) none_left)
        (place_block-panic txt (length - width - 1)
          (write_newline host (record e { overflow = break })) len)
  write_right_block-panic hide txt width length e o w p h len = elim o [ inl x ↦ cc | inr x ↦ cc ]

  -- If a right-aligned block is longer than the terminal is wide, and has a filler with a length, then
  -- drawing it panics, on the line that it was to start or on a new one: the padding is below zero
  -- there. This is so for every block whose overflow is not `hide`, in a terminal of a known width.
  pub render_block_with_text-panic :
      (overflow : Overflow) (txt : Runes) (width length : ℕ) (cancel_newline : Bool) (e : Engine)
      → block.type ≡ BlockType.prompt
      → block.alignment ≡ BlockAlignment.right
      → (overflow ≡ unset) ⊎ (overflow ≡ break)
      → host.terminal_width ≡ some width
      → 0 < width
      → width < length
      → (write_text host.terminal "" "" filler_text e.writer).length ≡ suc k
      → render_block_with_text host block overflow txt length cancel_newline e ≡ panic
  unfolding render_block_with_text write_newline write
  render_block_with_text-panic overflow txt width length cancel_newline e ty al o w p h len =
      elim (Bool-cases (block.newline && not cancel_newline)) [
        | inl breaks ↦
            rw
              (
                render_block_with_text,
                not_empty length h,
                ty,
                al,
                breaks,
                write_right_block-panic overflow txt width length (write_newline host e) o w p h
                    len,
              )
              refl
        | inr stays ↦
            rw
              (
                render_block_with_text,
                not_empty length h,
                ty,
                al,
                stays,
                write_right_block-panic overflow txt width length e o w p h len,
              )
              refl
      ]
