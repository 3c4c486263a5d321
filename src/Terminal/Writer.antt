-- ===== src/Terminal/Writer.antt =====
-- `Write` and `String` of src/terminal/writer.go. The loop over the runes is by recursion on them: where
-- the code moves its index ahead, `skip` counts the runes that are passed over.
pub mod Bounds
pub mod Hidden
pub mod Verbatim
pub mod Stack
use Prim.Native.Char.{Char}
use prompto.Prelude.{
  ℕ, zero, suc, ◌+◌, ◌-◌, Bool, true, false, List, [], ◌∷◌, ◌++◌, Option, none, some, String,
  if◌then◌else◌, ◌==◌, string_comparable, eqb, length, drop,
}
use prompto.Prelude.Runes.{Runes, runes, text_of, is, is_empty}
use prompto.Color.Ansi.{is_empty_color}
use prompto.Terminal.Anchor.{
  Match, Style, find_anchor, known_styles, reset_end, hyper_link_start, hyper_link_text,
  hyper_link_text_end, hyper_link_end, empty_anchor,
}
use prompto.Terminal.Output.{
  Terminal, Writer, emit, write, write_all_raw, shell_clock_token_end, write_escaped_ansi_string,
}
use prompto.Terminal.Coloring.{
  as_ansi_colors, push, drop_last, write_segment_colors, write_anchor_override,
}

-- The first so many entries.
abbrev pub take {ℓ} : {A : Type ℓ} → ℕ → List A → List A
take zero xs = []
take (suc n) [] = []
take (suc n) (x ∷ xs) = x ∷ take n xs

abbrev pub no_match : Match
no_match = record { anchor = []; fg = []; bg = [] }

abbrev pub or_no_match : Option Match → Match
or_no_match none = no_match
or_no_match (some m) = m

unfoldable pub default_text : ℕ → Writer → Writer
unfolding emit
default_text i w =
    if eqb (suc w.hyperlink_text_position) i
    then emit (runes "link") (record w { length = w.length + 4 })
    else w

module _ (t : Terminal) (segment_background : String) (total : ℕ) where
  -- The cases for the hyperlinks' anchors, and the overrides. The result's number is how far the index
  -- moves before the loop's own increment.
  unfoldable pub write_anchor : Match → ℕ → Writer → ℕ × Writer
  unfolding emit default_text
  write_anchor m i w =
      let jump = length m.anchor - 1 in
      let anchor = text_of m.anchor in
      let (position, overridden) = write_anchor_override t m segment_background total i w in
      elim (anchor == hyper_link_start) [
        | true ↦ (jump, emit (runes t.formats.hyperlink_start) (record w { is_hyperlink = true }))
        | false ↦ elim (anchor == hyper_link_text) [
          | true ↦ (
            jump,
            emit (runes t.formats.hyperlink_center)
                (record w { is_hyperlink = false; hyperlink_text_position = i + jump }),
          )
          | false ↦ elim (anchor == hyper_link_text_end) [
            | true ↦ (jump, default_text i w)
            | false ↦ elim (anchor == hyper_link_end) [
              | true ↦ (jump, emit (runes t.formats.hyperlink_end) w)
              | false ↦ if anchor == empty_anchor then (jump, w) else (position - i, overridden)
            ]
          ]
        ]
      ]

  unfoldable pub write_matched : Option Match → ℕ → Char → Writer → ℕ × Writer
  unfolding write_anchor
  write_matched none i s w = (0, write t s w)
  write_matched (some m) i s w = write_anchor m i w

  unfoldable pub write_token : Option ℕ → ℕ → Char → Runes → Writer → ℕ × Writer
  unfolding write_matched
  write_token (some end) i s rest w = (end, write_all_raw t (take (suc end) (s ∷ rest)) w)
  write_token none i s rest w =
      if is b'<' s then write_matched (find_anchor (s ∷ rest)) i s w else (0, write t s w)

  -- One round of the loop, at the rune `s`.
  unfoldable pub write_next : ℕ → Char → Runes → Writer → ℕ × Writer
  unfolding write_token
  write_next i s rest w = write_token (shell_clock_token_end t (s ∷ rest) w) i s rest w

  unfoldable pub write_runes : ℕ → ℕ → Runes → Writer → ℕ × Writer
  unfolding write_next
  write_runes skip i [] w = (skip, w)
  write_runes (suc skip) i (s ∷ rest) w = write_runes skip (suc i) rest w
  write_runes zero i (s ∷ rest) w =
      let (skip, next) = write_next i s rest w in write_runes skip (suc i) rest next

module _ (t : Terminal) where
  -- The loop over the styles at the text's start; `true` stands for `colorOverride`.
  unfoldable pub start_style : String → List Style → Bool → Writer → Bool × Writer
  start_style anchor [] override w = (override, w)
  start_style anchor (style ∷ styles) override w =
      if style.anchor_start == anchor
      then start_style anchor styles false (write_escaped_ansi_string t (runes style.start) w)
      else start_style anchor styles override w

  unfoldable pub start_override : Option Match → Writer → Writer
  unfolding start_style
  start_override none w = w
  start_override (some m) w =
      let (bg, fg) = as_ansi_colors t (text_of m.bg) (text_of m.fg) in
      let (is_color, styled) = start_style (text_of m.anchor) known_styles true w in
      if text_of m.anchor == hyper_link_start
      then w
      else if is_color
      then push bg fg styled
      else styled

  unfoldable pub set_colors : String → String → Writer → Writer
  set_colors background foreground w =
      let (bg, fg) = as_ansi_colors t background foreground in
      record w {
        background_color = bg;
        foreground_color = if is_empty_color fg then t.colors.to_ansi "white" false else fg;
      }

  unfoldable pub start_hyperlink : Match → Writer → Writer
  start_hyperlink m w =
      if text_of m.anchor == hyper_link_start
      then emit (runes t.formats.hyperlink_start) (record w { is_hyperlink = true })
      else w

  -- What is done before the loop.
  unfoldable pub start_text : String → String → Runes → Writer → Writer
  unfolding start_override set_colors start_hyperlink
  start_text background foreground txt w =
      record (start_hyperlink (or_no_match (find_anchor txt)) (
        write_segment_colors t
          (start_override (find_anchor txt) (set_colors background foreground w)))) {
            hyperlink_text_position = 0;
          }

  -- What is done behind the loop.
  unfoldable pub end_text : Writer → Writer
  end_text w = drop_last (write_escaped_ansi_string t (runes reset_end) w)

  -- The runes that the loop goes over.
  unfoldable pub text_behind : Runes → Runes
  text_behind txt = drop (length (or_no_match (find_anchor txt)).anchor) txt

  -- `Write`.
  unfoldable pub write_text : String → String → Runes → Writer → Writer
  unfolding start_text end_text text_behind write_runes
  write_text background foreground txt w =
      let rest = text_behind txt in
      if is_empty txt
      then w
      else end_text (
          (write_runes t background (length rest) 0 0 rest
            (start_text background foreground txt w)).1)

-- `String`: the text, its length and what is left.
unfoldable pub string : Writer → Runes × ℕ × Writer
string w = (
  w.builder,
  w.length,
  record w { length = 0; builder = []; is_transparent = false; is_invisible = false },
)
