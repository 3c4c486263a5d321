-- ===== src/Terminal/Tests.antt =====
-- The writer on inputs of src/terminal/writer_test.go.
use prompto.Prelude.{◌∷◌, arith, [], true, some, inr, ◌≡◌, refl, false, String}
use prompto.Prelude.Runes.{runes, Runes}
use prompto.Terminal.Modes.{in_mode}
use prompto.Terminal.Modes.Lengths.{HasNoClock}
use prompto.Terminal.Modes.Widths.{width}
use prompto.Terminal.Modes.Counting.{length-write_text}
use prompto.Terminal.Writer.Bounds.{write_runes_inside}
use prompto.Terminal.Writer.Verbatim.{write_text_verbatim, shown as verbatim}
use prompto.Terminal.Writer.Hidden.{override_end-hidden}
use prompto.Terminal.Writer.Stack.{write_text_leaks}
use prompto.Terminal.Anchor.Reading.{find_anchor-written}
use prompto.Terminal.Anchor.{Match}
use prompto.Terminal.Samples.{bare_terminal}
use prompto.Terminal.Output.{Writer, Terminal, new_writer}
use prompto.Terminal.Output.{
  emit, write_escaped_ansi_string, write_raw, escaped, write, closing_brace, clock_token_behind,
  shell_clock_token_end, write_all_raw,
}
use prompto.Terminal.Coloring.{
  colorise, transparent_start, push, drop_last, set_transparent, set_invisible, as_ansi_colors,
  write_colors, write_on_background, write_starting_colors, write_segment_colors, restore_previous,
  restore_own, end_color_override, style_sequence, write_override, override_colors,
  write_anchor_override,
}
use prompto.Terminal.Writer.{
  default_text, write_anchor, write_matched, write_token, write_next, write_runes, start_style,
  start_override, set_colors, start_hyperlink, start_text, end_text, text_behind, write_text,
  string,
}
use prompto.Terminal.History.{len, add, pop, background, foreground}
use prompto.Terminal.Anchor.{anchor_body, find_anchor}
use prompto.Color.Ansi.{
  is_empty_color, is_transparent, is_clear, to_foreground, get_ansi_color_from_name, parse_uint,
  default_to_ansi, defaults,
}
use prompto.Color.Keywords.{
  is_keyword, resolve_parent_color, resolve_of_parents, resolve_keyword, resolve,
}
use prompto.Shell.Formats.{get_formats}
use prompto.Prelude.Runes.{cut, behind, sprintf}
use prompto.Prelude.Dict.{lookup}
use prompto.Terminal.Samples.{resolved_within, terminal}

abbrev shown : String → Runes
shown txt =
    (string (write_text (terminal "shell" false "") "white" "black" (runes txt) new_writer)).0

nested_override :
    shown "hello, <red>world, <white>rabbit</> hello</>"
    ≡ runes "\u{1b}[47m\u{1b}[30mhello, \u{1b}[31mworld, \u{1b}[37mrabbit\u{1b}[31m hello\u{1b}[0m"
unfolding emit write_escaped_ansi_string write_raw escaped write closing_brace clock_token_behind
    shell_clock_token_end write_all_raw colorise transparent_start push drop_last set_transparent
    set_invisible as_ansi_colors write_colors write_on_background write_starting_colors
    write_segment_colors restore_previous restore_own end_color_override style_sequence
    write_override override_colors write_anchor_override default_text write_anchor write_matched
    write_token write_next write_runes start_style start_override set_colors start_hyperlink
    start_text end_text text_behind write_text string len add pop background foreground anchor_body
    find_anchor is_empty_color is_transparent is_clear to_foreground get_ansi_color_from_name
    parse_uint default_to_ansi defaults is_keyword resolve_parent_color resolve_of_parents
    resolve_keyword resolve get_formats cut behind sprintf lookup resolved_within terminal
nested_override = refl

transparent_override :
    shown "home<transparent> / </>code<transparent> / </>src "
    ≡ runes
        "\u{1b}[47m\u{1b}[30mhome\u{1b}[0m\u{1b}[37;49m\u{1b}[7m / \u{1b}[27m\u{1b}[47m\u{1b}[30mcode\u{1b}[0m\u{1b}[37;49m\u{1b}[7m / \u{1b}[27m\u{1b}[47m\u{1b}[30msrc \u{1b}[0m"
unfolding emit write_escaped_ansi_string write_raw escaped write closing_brace clock_token_behind
    shell_clock_token_end write_all_raw colorise transparent_start push drop_last set_transparent
    set_invisible as_ansi_colors write_colors write_on_background write_starting_colors
    write_segment_colors restore_previous restore_own end_color_override style_sequence
    write_override override_colors write_anchor_override default_text write_anchor write_matched
    write_token write_next write_runes start_style start_override set_colors start_hyperlink
    start_text end_text text_behind write_text string len add pop background foreground anchor_body
    find_anchor is_empty_color is_transparent is_clear to_foreground get_ansi_color_from_name
    parse_uint default_to_ansi defaults is_keyword resolve_parent_color resolve_of_parents
    resolve_keyword resolve get_formats cut behind sprintf lookup resolved_within terminal
transparent_override = refl

less_and_larger :
    shown "<red><</><orange>></><yellow><</>"
    ≡ runes "\u{1b}[47m\u{1b}[31m<\u{1b}[30m>\u{1b}[33m<\u{1b}[0m"
unfolding emit write_escaped_ansi_string write_raw escaped write closing_brace clock_token_behind
    shell_clock_token_end write_all_raw colorise transparent_start push drop_last set_transparent
    set_invisible as_ansi_colors write_colors write_on_background write_starting_colors
    write_segment_colors restore_previous restore_own end_color_override style_sequence
    write_override override_colors write_anchor_override default_text write_anchor write_matched
    write_token write_next write_runes start_style start_override set_colors start_hyperlink
    start_text end_text text_behind write_text string len add pop background foreground anchor_body
    find_anchor is_empty_color is_transparent is_clear to_foreground get_ansi_color_from_name
    parse_uint default_to_ansi defaults is_keyword resolve_parent_color resolve_of_parents
    resolve_keyword resolve get_formats cut behind sprintf lookup resolved_within terminal
less_and_larger = refl

abbrev sample : Terminal
sample = terminal "shell" false ""

sample-HasNoClock : HasNoClock sample
unfolding terminal
sample-HasNoClock = inr (refl, refl)

abbrev colored_text : Runes
colored_text = runes "a<red>c"

length-write_text_example :
    (write_text (in_mode false sample) "white" "black" colored_text new_writer).length
    ≡ width sample.rune_width
        (write_text (in_mode true sample) "white" "black" colored_text new_writer).builder
unfolding terminal find_anchor anchor_body cut
length-write_text_example =
    length-write_text sample false "white" "black" colored_text new_writer sample-HasNoClock
      (tt, ((refl, refl, refl, refl), (tt, (tt, (tt, (tt, (tt, tt))))))) refl refl refl

write_runes_inside_example : (write_runes sample "white" 7 0 0 colored_text new_writer).0 ≡ 0
write_runes_inside_example =
    write_runes_inside sample "white" 7 0 0 colored_text new_writer (omega arith)

find_anchor-written_example :
    find_anchor (runes "<red,blue>text")
    ≡ some (record { anchor = runes "<red,blue>"; fg = runes "red"; bg = runes "blue" })
find_anchor-written_example =
    find_anchor-written (runes "red") (runes "blue") (runes "text") (refl, (refl, (refl, tt)))
      (refl, (refl, (refl, tt))) (refl, (refl, (refl, tt))) (refl, (refl, (refl, (refl, tt))))
      (refl, (refl, (refl, (refl, tt))))

write_text_verbatim_example :
    write_text sample "white" "black" (runes "ab") new_writer
    ≡ end_text sample (
        verbatim sample sample-HasNoClock
          (runes "ab")
          (start_text sample "white" "black" (runes "ab") new_writer))
unfolding emit write_escaped_ansi_string write_raw escaped write closing_brace clock_token_behind
    shell_clock_token_end write_all_raw colorise transparent_start push drop_last set_transparent
    set_invisible as_ansi_colors write_colors write_on_background write_starting_colors
    write_segment_colors restore_previous restore_own end_color_override style_sequence
    write_override override_colors write_anchor_override default_text write_anchor write_matched
    write_token write_next write_runes start_style start_override set_colors start_hyperlink
    start_text end_text text_behind write_text string len add pop background foreground anchor_body
    find_anchor is_empty_color is_transparent is_clear to_foreground get_ansi_color_from_name
    parse_uint default_to_ansi defaults is_keyword resolve_parent_color resolve_of_parents
    resolve_keyword resolve get_formats cut behind sprintf lookup resolved_within terminal
write_text_verbatim_example =
    write_text_verbatim sample sample-HasNoClock "white" "black" (runes "ab") new_writer refl
      (refl, (refl, tt)) refl refl

abbrev hidden_writer : Writer
hidden_writer = record new_writer { is_invisible = true }

override_end-hidden_example :
    ((write_runes sample "white" 5 0 0 (runes "</>ab") hidden_writer).1
      ≡ (end_color_override sample 5 0 hidden_writer).1)
    × ((write_runes sample "white" 5 0 0 (runes "</>ab") hidden_writer).1.length
        ≡ hidden_writer.length)
override_end-hidden_example =
    override_end-hidden sample "white" 5 0 (runes "ab") hidden_writer (refl, (refl, tt)) refl

abbrev opened : Match
opened = record { anchor = runes "<red>"; fg = runes "red"; bg = [] }

write_text_leaks_example :
    (write_text bare_terminal "transparent" "black" (runes "<red>x") new_writer).current_color
    ≡ record { background = ""; foreground = "31" } ∷ []
unfolding emit write_escaped_ansi_string write_raw escaped write closing_brace clock_token_behind
    shell_clock_token_end write_all_raw colorise transparent_start push drop_last set_transparent
    set_invisible as_ansi_colors write_colors write_on_background write_starting_colors
    write_segment_colors restore_previous restore_own end_color_override style_sequence
    write_override override_colors write_anchor_override default_text write_anchor write_matched
    write_token write_next write_runes start_style start_override set_colors start_hyperlink
    start_text end_text text_behind write_text string len add pop background foreground anchor_body
    find_anchor is_empty_color is_transparent is_clear to_foreground get_ansi_color_from_name
    parse_uint default_to_ansi defaults is_keyword resolve_parent_color resolve_of_parents
    resolve_keyword resolve get_formats cut behind sprintf lookup resolved_within terminal
    bare_terminal
write_text_leaks_example =
    write_text_leaks bare_terminal "transparent" "black" (runes "<red>x") new_writer opened
      "transparent" "30" "31" refl refl
      (refl, (refl, (refl, (refl, (refl, (refl, (refl, (refl, tt)))))))) refl refl refl refl refl
      refl (refl, tt) refl
