-- ===== src/Prompt/EngineTests.antt =====
-- Right-aligned blocks at concrete sizes.
use prompto.Prelude.{ℕ, ◌≤◌, ◌≡◌, refl, inl, Bool, true, false, [], some, arith}
use prompto.Prelude.Int.{pos, ◌-ℤ◌}
use prompto.Prelude.Outcome.{done, panic}
use prompto.Prelude.Runes.{Runes, runes}
use prompto.Terminal.Output.{
  new_writer, emit, write_escaped_ansi_string, write_raw, escaped, write, closing_brace,
  clock_token_behind, shell_clock_token_end, write_all_raw,
}
use prompto.Terminal.Coloring.{
  colorise, transparent_start, push, drop_last, set_transparent, set_invisible, as_ansi_colors,
  write_colors, write_on_background, write_starting_colors, write_segment_colors, restore_previous,
  restore_own, end_color_override, style_sequence, write_override, override_colors,
  write_anchor_override,
}
use prompto.Terminal.Writer.{
  default_text, write_anchor, write_matched, write_token, write_next, write_runes, start_style,
  start_override, set_colors, start_hyperlink, start_text, end_text, text_behind, write_text,
  string,
}
use prompto.Terminal.History.{len, add, pop, background, foreground}
use prompto.Terminal.Anchor.{anchor_body, find_anchor}
use prompto.Color.Ansi.{
  is_empty_color, is_transparent, is_clear, to_foreground, get_ansi_color_from_name, parse_uint,
  default_to_ansi, defaults,
}
use prompto.Color.Keywords.{
  is_keyword, resolve_parent_color, resolve_of_parents, resolve_keyword, resolve,
}
use prompto.Shell.Formats.{get_formats}
use prompto.Prelude.Runes.{cut, behind, sprintf}
use prompto.Prelude.Dict.{lookup}
use prompto.Terminal.Samples.{resolved_within, terminal}
use prompto.Terminal.Modes.Widths.{width}
use prompto.Prompt.Layout.{Block, BlockType, BlockAlignment}
use prompto.Prompt.Engine.{
  Host, Engine, unset, can_write_right_block, breathing_room, should_fill, render_block_with_text,
  fit,
}
use prompto.Prompt.Engine.RightEdge.{Lands, can_write_right_block-Lands}
use prompto.Prompt.Engine.Filling.{should_fill-width}
use prompto.Prompt.Engine.Narrow.{render_block_with_text-panic}

abbrev host_of : Bool → Host
host_of plain = record {
  terminal = terminal "shell" plain "";
  terminal_width = some 80;
  render_filler = λ filler pad. some (runes "-");
  is_warp = false;
  debug = false;
  patch_pwsh_bleed = false;
}

abbrev engine : Engine
engine = record {
  prompt = runes "left";
  current_line_length = 4;
  rprompt = [];
  rprompt_length = 0;
  overflow = unset;
  padding = pos 0;
  writer = new_writer;
}

abbrev block : Block
block = record {
  type = BlockType.prompt;
  alignment = BlockAlignment.right;
  filler = "-";
  leading_glyph = "";
  trailing_glyph = "";
  segments = [];
  newline = false;
  force = false;
}

can_write_right_block-Lands_example :
    (n : ℕ) × (pos 66 ≡ pos n) × (breathing_room false ≤ n) × Lands 80 4 10 n
unfolding can_write_right_block fit ◌-ℤ◌
can_write_right_block-Lands_example =
    can_write_right_block-Lands (host_of false) engine 80 10 false (pos 66) refl refl

should_fill-width_example :
    (filled : Runes) × (after : Engine) × (should_fill (host_of true) "-" (pos 66) engine
      ≡ done (some filled, after))
    × (width (host_of true).terminal.rune_width filled ≡ 66)
unfolding emit write_escaped_ansi_string write_raw escaped write closing_brace clock_token_behind
    shell_clock_token_end write_all_raw colorise transparent_start push drop_last set_transparent
    set_invisible as_ansi_colors write_colors write_on_background write_starting_colors
    write_segment_colors restore_previous restore_own end_color_override style_sequence
    write_override override_colors write_anchor_override default_text write_anchor write_matched
    write_token write_next write_runes start_style start_override set_colors start_hyperlink
    start_text end_text text_behind write_text string len add pop background foreground anchor_body
    find_anchor is_empty_color is_transparent is_clear to_foreground get_ansi_color_from_name
    parse_uint default_to_ansi defaults is_keyword resolve_parent_color resolve_of_parents
    resolve_keyword resolve get_formats cut behind sprintf lookup resolved_within terminal
should_fill-width_example =
    should_fill-width (host_of true) engine "-" (runes "-") 66 0 refl refl refl refl (tt, tt) refl
      refl refl refl

render_block_with_text-panic_example :
    render_block_with_text (host_of false) block unset (runes "wide") 90 false engine ≡ panic
unfolding emit write_escaped_ansi_string write_raw escaped write closing_brace clock_token_behind
    shell_clock_token_end write_all_raw colorise transparent_start push drop_last set_transparent
    set_invisible as_ansi_colors write_colors write_on_background write_starting_colors
    write_segment_colors restore_previous restore_own end_color_override style_sequence
    write_override override_colors write_anchor_override default_text write_anchor write_matched
    write_token write_next write_runes start_style start_override set_colors start_hyperlink
    start_text end_text text_behind write_text string len add pop background foreground anchor_body
    find_anchor is_empty_color is_transparent is_clear to_foreground get_ansi_color_from_name
    parse_uint default_to_ansi defaults is_keyword resolve_parent_color resolve_of_parents
    resolve_keyword resolve get_formats cut behind sprintf lookup resolved_within terminal
render_block_with_text-panic_example =
    render_block_with_text-panic (host_of false) block (runes "-") 0 refl (λ pad. refl) unset
      (runes "wide") 80 90 false engine refl refl (inl refl) refl (omega arith) (omega arith) refl
