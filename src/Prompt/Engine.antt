-- ===== src/Prompt/Engine.antt =====
-- src/prompt/engine.go and src/prompt/streaming.go: how the text of a block reaches the prompt, what stands
-- left of a right-aligned block, and the right prompt. The host is what the code asks the environment,
-- its flags and configuration, and the rendering of a filler by text/template.
pub mod Filling
pub mod RightEdge
pub mod Narrow
use prompto.Prelude.{
  ℕ, zero, suc, ◌+◌, ◌-◌, ◌*◌, ◌/◌, ◌%◌, Bool, true, false, not, ◌||◌, ◌&&◌, [], ◌∷◌, ◌++◌, Option,
  none, some, String, if◌then◌else◌, ◌==◌, string_comparable, eqb, ltb, max,
}
use prompto.Prelude.Int.{ℤ, pos, negsuc, ◌-ℤ◌, ◌+ℤ◌, is_neg, is_pos, ltb_ℤ}
use prompto.Prelude.Outcome.{Outcome, done, panic, ◌>>=◌}
use prompto.Prelude.Runes.{Runes, runes, is_empty}
use prompto.Shell.Formats.{pwsh}
use prompto.Terminal.Output.{Terminal, Writer}
use prompto.Terminal.Writer.{write_text, string}
use prompto.Terminal.Sequences.{clear_after, line_break}
use prompto.Prompt.Layout.{Block, BlockType, BlockAlignment}

pub data Overflow : Type 0 where
  unset break hide : Overflow

-- `Overflow` is a field of the block in the code.
pub record Host : Type 0 where
  pub terminal : Terminal
  pub terminal_width : Option ℕ
  pub render_filler : String → ℤ → Option Runes
  pub is_warp : Bool
  pub debug : Bool
  pub patch_pwsh_bleed : Bool

pub record Engine : Type 0 where
  pub prompt : Runes
  pub current_line_length : ℕ
  pub rprompt : Runes
  pub rprompt_length : ℕ
  pub overflow : Overflow
  pub padding : ℤ
  pub writer : Writer

unfoldable pub write : Runes → Engine → Engine
write txt e = record e { prompt = e.prompt ++ txt }

-- The text, and the engine with an empty builder.
unfoldable pub string_of : Engine → Runes × Engine
string_of e = (e.prompt, record e { prompt = [] })

-- Go's quotient and remainder of an `int` and a length.
abbrev pub negated : ℕ → ℤ
negated zero = pos 0
negated (suc n) = negsuc n

abbrev pub quotient : ℤ → ℕ → ℤ
quotient (pos n) m = pos (n / m)
quotient (negsuc n) m = negated (suc n / m)

abbrev pub remainder : ℤ → ℕ → ℤ
remainder (pos n) m = pos (n % m)
remainder (negsuc n) m = negated (suc n % m)

unfoldable pub repeat_runes : ℕ → Runes → Runes
repeat_runes zero s = []
repeat_runes (suc n) s = s ++ repeat_runes n s

-- `strings.Repeat` panics on a negative count.
unfoldable pub repeat : Runes → ℤ → Outcome Runes
unfolding repeat_runes
repeat s (pos n) = done (repeat_runes n s)
repeat s (negsuc n) = panic

abbrev pub breathing_room : Bool → ℕ
breathing_room rprompt = if rprompt then 30 else 5

abbrev pub joined : Engine → Outcome Runes → Outcome Runes → Outcome (Option Runes × Engine)
joined e filled unfilled = filled >>= λ txt. unfilled >>= λ rest. done (some (txt ++ rest), e)

-- What is left of the line behind `used` cells, for a block of that length.
unfoldable pub fit : ℕ → ℕ → ℕ → Bool → ℤ × Bool
fit width used length rprompt =
    let rest = if ltb width used then pos (width - used % width) else (pos width -ℤ pos used) in
    let available = rest -ℤ pos length in
    if ltb_ℤ available (pos (breathing_room rprompt))
    then (pos width -ℤ pos length, false)
    else (available, true)

module _ (host : Host) where
  unfoldable pub can_write_right_block : Engine → ℕ → Bool → ℤ × Bool
  unfolding fit
  can_write_right_block e length rprompt =
      if rprompt && is_empty e.rprompt then (pos 0, false) else in_width host.terminal_width
    where
      in_width : Option ℕ → ℤ × Bool
      in_width none = (pos 0, false)
      in_width (some width) =
          if eqb width 0 then (pos 0, false) else fit width e.current_line_length length rprompt

  unfoldable pub get_newline : Runes
  get_newline =
      if host.terminal.plain || host.debug
      then runes "\n"
      else if host.is_warp
      then line_break host.terminal
      else runes "\n"

  unfoldable pub write_newline : Engine → Engine
  unfolding write get_newline
  write_newline e = record (write get_newline e) { current_line_length = 0 }

  -- The filler's own text and length. `SetColors` is left out: the colours are a field of the terminal,
  -- and stand here for `default`.
  unfoldable pub write_filler : Runes → Engine → Runes × ℕ × Engine
  write_filler filler e =
      let (txt, length, writer) = string (write_text host.terminal "" "" filler e.writer) in
      (txt, length, record e { writer = writer })

  unfoldable pub repeat_filler : Runes × ℕ × Engine → ℤ → Outcome (Option Runes × Engine)
  unfolding repeat
  repeat_filler (txt, length, e) pad = elim (eqb length 0) [
    | true ↦ done (none, e)
    | false ↦
        joined e (repeat txt (quotient pad length)) (repeat (runes " ") (remainder pad length))
  ]

  unfoldable pub should_fill : String → ℤ → Engine → Outcome (Option Runes × Engine)
  unfolding repeat_filler write_filler
  should_fill filler pad e =
      if filler == "" then done (none, e) else rendered (host.render_filler filler pad)
    where
      rendered : Option Runes → Outcome (Option Runes × Engine)
      rendered none = done (none, record e { padding = pos 0 })
      rendered (some txt) = repeat_filler (write_filler txt (record e { padding = pos 0 })) pad

  unfoldable pub append_right_prompt_line : Runes → ℕ → Bool → Engine → Engine × Bool
  append_right_prompt_line txt length newline e =
      if not newline && is_empty txt
      then (record e { rprompt = []; rprompt_length = 0 }, false)
      else (
        record e {
          rprompt = e.rprompt ++ (if newline then runes "\n" else []) ++ txt;
          rprompt_length = max e.rprompt_length length;
        },
        true,
      )

  unfoldable pub apply_power_shell_bleed_patch : Engine → Engine
  unfolding write clear_after
  apply_power_shell_bleed_patch e =
      if host.terminal.shell == pwsh && host.patch_pwsh_bleed
      then write (clear_after host.terminal) e
      else e

  abbrev filled : Option Runes × Engine → Engine
  filled (none, e) = e
  filled (some padding, e) = write padding e

  -- The block is hidden: the filler covers the rest of the line.
  unfoldable pub hide_block : Block → ℤ → ℕ → Engine → Outcome Engine
  unfolding write should_fill
  hide_block block space length e =
      should_fill block.filler ((space +ℤ pos length) -ℤ pos e.current_line_length) e >>= λ r.
      done (record (filled r) { current_line_length = 0 })

  abbrev padded : ℤ → Option Runes × Engine → Engine
  padded (pos n) (none, e) = write (repeat_runes n (runes " ")) e
  padded (negsuc n) (none, e) = e
  padded space (some padding, e) = write padding e

  -- The space or the filler, and the block.
  unfoldable pub place_block : Block → Runes → ℤ → Engine → Outcome Engine
  unfolding write should_fill
  place_block block txt space e = should_fill block.filler space e >>= λ r.
      done (record (write txt (padded space r)) { current_line_length = 0; overflow = unset })

  unfoldable pub write_right_block : Block → Overflow → Runes → ℕ → Engine → Outcome Engine
  unfolding place_block hide_block can_write_right_block write_newline
  write_right_block block overflow txt length e =
      let (space, ok) = can_write_right_block e length false in
      let marked = record e { overflow = overflow } in
      elim ok [
        | true ↦ place_block block txt space e
        | false ↦ elim overflow [
          | unset ↦ place_block block txt space marked
          | break ↦ place_block block txt space (write_newline marked)
          | hide ↦ hide_block block space length marked
        ]
      ]

  abbrev with_patch : Engine × Bool → Engine × Bool
  with_patch (e, drawn) = (apply_power_shell_bleed_patch e, drawn)

  -- `renderBlockWithText`.
  unfoldable pub render_block_with_text :
      Block → Overflow → Runes → ℕ → Bool → Engine → Outcome (Engine × Bool)
  unfolding write_right_block append_right_prompt_line write_newline write
  render_block_with_text block overflow txt length cancel_newline e =
      if not block.force && eqb length 0
      then done (e, false)
      else (of_type block.type >>= λ r. done (with_patch r))
    where
      start : Engine
      start = if block.newline && not cancel_newline then write_newline e else e

      aligned : BlockAlignment → Outcome (Engine × Bool)
      aligned BlockAlignment.left = done (
        write txt (record start { current_line_length = start.current_line_length + length }),
        true,
      )
      aligned BlockAlignment.right =
          write_right_block block overflow txt length start >>= λ drawn. done (drawn, true)

      of_type : BlockType → Outcome (Engine × Bool)
      of_type BlockType.prompt = aligned block.alignment
      of_type BlockType.rprompt = done (append_right_prompt_line txt length block.newline e)
