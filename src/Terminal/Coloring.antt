-- ===== src/Terminal/Coloring.antt =====
-- src/terminal/writer.go: the colours of a text, their overrides and the ends of those.
use prompto.Prelude.{
  ℕ, suc, ◌+◌, ◌-◌, Bool, true, false, not, ◌&&◌, ◌||◌, List, [], ◌∷◌, Option, none, some, String,
  if◌then◌else◌, ◌==◌, string_comparable, eqb, ltb, length,
}
use prompto.Prelude.Runes.{Runes, runes, text_of, sprintf}
use prompto.Color.Keywords.{background_keyword, foreground_keyword, transparent}
use prompto.Color.Ansi.{is_empty_color, is_transparent, is_clear, to_foreground}
use prompto.Terminal.History.{add, pop, background, foreground, len}
use prompto.Terminal.Anchor.{Match, Style, known_styles, reset_anchor_end, background_style_end}
use prompto.Terminal.Output.{Terminal, Writer, write_escaped_ansi_string}

unfoldable pub colorise : String → Runes
colorise c = sprintf (runes "\u{1b}[%sm") (runes c ∷ [])

unfoldable pub transparent_start : String → Runes
transparent_start c = sprintf (runes "\u{1b}[0m\u{1b}[%s;49m\u{1b}[7m") (runes c ∷ [])

abbrev pub transparent_end : String
transparent_end = "\u{1b}[27m"

abbrev pub background_end : String
background_end = "\u{1b}[49m"

unfoldable pub push : String → String → Writer → Writer
push bg fg w = record w { current_color = add bg fg w.current_color }

unfoldable pub drop_last : Writer → Writer
drop_last w = record w { current_color = pop w.current_color }

unfoldable pub set_transparent : Bool → Writer → Writer
set_transparent b w = record w { is_transparent = b }

unfoldable pub set_invisible : Bool → Writer → Writer
set_invisible b w = record w { is_invisible = b }

-- What an anchor of a known style writes.
unfoldable pub style_sequence : String → List Style → Option String
style_sequence anchor [] = none
style_sequence anchor (style ∷ styles) =
    let later = style_sequence anchor styles in
    if style.anchor_end == anchor
    then some style.stop
    else if style.anchor_start == anchor
    then some style.start
    else later

module _ (t : Terminal) where
  abbrev found : String → String
  found c = elim (t.colors.resolve c) [ some r ↦ r | none ↦ c ]

  -- The background and the foreground.
  unfoldable pub as_ansi_colors : String → String → String × String
  as_ansi_colors background foreground =
      let b = found (t.resolved (if background == "" then background_keyword else background)) in
      let f = found (t.resolved (if foreground == "" then foreground_keyword else foreground)) in
      let inverted = (f == transparent) && not (b == "") in
      (t.colors.to_ansi b (not inverted), t.colors.to_ansi f false)

  unfoldable pub write_colors : String → String → Writer → Writer
  write_colors bg fg w =
      let colored =
        if not (is_empty_color bg) && not (is_transparent bg)
        then write_escaped_ansi_string t (colorise bg) w
        else w in
      if not (is_empty_color fg) && not (is_transparent fg)
      then write_escaped_ansi_string t (colorise fg) colored
      else colored

  -- Both branches that paint a background's colour where the terminal's background is known.
  unfoldable pub write_on_background : String → Writer → Writer
  write_on_background bg w =
      write_escaped_ansi_string t (colorise (to_foreground bg))
        (write_escaped_ansi_string t (colorise (t.colors.to_ansi t.background_color false)) w)

  -- `writeSegmentColors`, with the colours it starts from.
  unfoldable pub write_starting_colors : String → String → Writer → Writer
  write_starting_colors bg fg w =
      if is_transparent fg && is_transparent bg
      then set_invisible true w
      else if is_transparent fg && not (t.background_color == "")
      then push bg fg (write_on_background bg (set_invisible false w))
      else if is_transparent fg && not (is_empty_color bg)
      then push bg fg (
          write_escaped_ansi_string t (transparent_start bg)
            (set_transparent true (set_invisible false w)))
      else push bg fg (write_colors bg fg (set_invisible false w))

  unfoldable pub write_segment_colors : Writer → Writer
  unfolding write_starting_colors
  write_segment_colors w =
      write_starting_colors
        (if is_empty_color (background w.current_color)
          then w.background_color
          else background w.current_color)
        (if is_empty_color (foreground w.current_color)
          then w.foreground_color
          else foreground w.current_color)
        w

  -- The end of the override before the last one is the colours below it.
  unfoldable pub restore_previous : String → String → Writer → Writer
  restore_previous bg fg w =
      let ended =
        if w.is_transparent then write_escaped_ansi_string t (runes transparent_end) w else w in
      let previous_bg = background w.current_color in
      let previous_fg = foreground w.current_color in
      let grounded =
        if previous_bg == bg
        then ended
        else write_escaped_ansi_string t
            (if is_clear previous_bg then runes background_style_end else colorise previous_bg)
            ended in
      if previous_fg == fg
      then grounded
      else write_escaped_ansi_string t (colorise previous_fg) grounded

  unfoldable pub restore_own : Writer → Writer
  restore_own w =
      let bg = background w.current_color in
      let fg = foreground w.current_color in
      let ended =
        if w.is_transparent then write_escaped_ansi_string t (runes transparent_end) w else w in
      let cleared =
        if is_clear w.background_color
        then write_escaped_ansi_string t (runes background_style_end) ended
        else ended in
      let grounded =
        if not (bg == w.background_color) && not (is_clear w.background_color)
        then write_escaped_ansi_string t (colorise w.background_color) cleared
        else cleared in
      let colored =
        if (not (fg == w.foreground_color) || w.is_transparent) && not (is_clear w.foreground_color)
        then write_escaped_ansi_string t (colorise w.foreground_color) grounded
        else grounded in
      set_transparent false colored

  -- The position is that of the anchor's last rune, among `total` runes.
  unfoldable pub end_color_override : ℕ → ℕ → Writer → ℕ × Writer
  unfolding restore_previous restore_own
  end_color_override total start w =
      let position = start + 2 in
      let bg = background w.current_color in
      let fg = foreground w.current_color in
      if eqb (suc position) total
      then (position, drop_last w)
      else if ltb 1 (len w.current_color)
      then (position, restore_previous bg fg (drop_last w))
      else if (bg == w.background_color) && (fg == w.foreground_color)
      then (position, drop_last w)
      else (position, drop_last (restore_own w))

  unfoldable pub write_override : String → String → Writer → Writer
  write_override bg fg w =
      if is_transparent fg && not (t.background_color == "")
      then write_on_background bg w
      else if is_transparent fg && not (is_transparent bg)
      then write_escaped_ansi_string t (transparent_start bg) (set_transparent true w)
      else (let grounded =
            if bg == w.background_color
            then w
            else write_escaped_ansi_string t
                (if is_transparent bg then runes background_end else colorise bg) w in
          if fg == w.foreground_color
          then grounded
          else write_escaped_ansi_string t (colorise fg) grounded)

  unfoldable pub override_colors : String → String → Writer → Writer
  unfolding write_override
  override_colors bg fg w =
      let new_bg = if is_empty_color bg then w.background_color else bg in
      let new_fg = if is_empty_color fg then w.foreground_color else fg in
      let pushed = push new_bg new_fg (set_invisible false w) in
      if is_transparent fg && is_transparent bg
      then set_invisible true w
      else write_override (background pushed.current_color) (foreground pushed.current_color) pushed

  -- The new position and the new state.
  unfoldable pub write_anchor_override : Match → String → ℕ → ℕ → Writer → ℕ × Writer
  unfolding end_color_override style_sequence override_colors as_ansi_colors
  write_anchor_override m background total i w =
      let position = i + length m.anchor - 1 in
      let bg_color =
        if is_transparent (text_of m.fg) && is_empty_color (text_of m.bg)
        then background
        else text_of m.bg in
      let (bg, fg) = as_ansi_colors bg_color (text_of m.fg) in
      elim (text_of m.anchor == reset_anchor_end) [
        | true ↦ end_color_override total i w
        | false ↦ elim (style_sequence (text_of m.anchor) known_styles) [
          | some sequence ↦ (position, write_escaped_ansi_string t (runes sequence) w)
          | none ↦ (position, override_colors bg fg w)
        ]
      ]
