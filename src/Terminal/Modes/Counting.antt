-- ===== src/Terminal/Modes/Counting.antt =====
-- That `Write` of src/terminal/writer.go counts what it shows.
use Prim.Native.Char.{Char}
use prompto.Prelude.{
  ℕ, zero, suc, ◌+◌, ◌-◌, Bool, true, false, List, [], ◌∷◌, Option, none, some, String, ◌≡◌, refl,
  sym, ap, ◌∙◌, inl, inr, if◌then◌else◌, ◌==◌, string_comparable, length, arith, Bool-cases,
  Option-cases,
}
use prompto.Prelude.Runes.{Runes, runes, is, text_of, is_empty}
use prompto.Terminal.Anchor.{
  Match, Style, find_anchor, known_styles, empty_anchor, reset_anchor_end,
}
use prompto.Terminal.Output.{Terminal, Writer, write, emit, escaped, shell_clock_token_end}
use prompto.Terminal.Coloring.{
  style_sequence, end_color_override, write_anchor_override, write_segment_colors,
}
use prompto.Terminal.Writer.{
  write_anchor, write_matched, write_next, write_token, write_runes, start_text, write_text,
  start_override, start_style, set_colors, start_hyperlink, end_text, text_behind, or_no_match,
}
use prompto.Terminal.Modes.{in_mode}
use prompto.Terminal.Modes.Lengths.{HasNoClock, write_text-Alike}
use prompto.Terminal.Modes.Widths.{
  HasNoLink, IsLinkless, width, width-append, drop-IsLinkless, IsMeasured, measured_rules,
  segment_colors-IsMeasured, override_colors-IsMeasured, restore_previous-IsMeasured,
  restore_own-IsMeasured, sequence-IsMeasured, if-IsMeasured, drop_last-IsMeasured,
}

module _ (t : Terminal) where
  -- A plain terminal writes every rune as it is.
  plain_rune : (s : Char) → escaped (in_mode true t) s ≡ s ∷ []
  unfolding escaped
  plain_rune s = ground arith

  no_token : (s : Runes) (w : Writer) → shell_clock_token_end (in_mode true t) s w ≡ none
  unfolding shell_clock_token_end
  no_token s w = ground arith

  if_second :
      (x : Bool) (a b : ℕ × Writer)
      → IsMeasured t a.1
      → IsMeasured t b.1
      → IsMeasured t (if x then a else b).1
  if_second true a b h k = h
  if_second false a b h k = k

  write-IsMeasured :
      (s : Char) (w : Writer) → IsMeasured t w → IsMeasured t (write (in_mode true t) s w)
  unfolding write emit escaped
  write-IsMeasured s w (l, h) = elim (Bool-cases w.is_invisible) [
    | inl invisible ↦ rw (write, invisible) (l, h)
    | inr visible ↦
        let counted =
          ap (λ n. n + t.rune_width s) l
          ∙ omega (arith, width-append t.rune_width w.builder (s ∷ [])) in
        rw (write, visible, h, plain_rune s) (counted, refl)
  ]

  end_color_override-IsMeasured :
      (total i : ℕ) (w : Writer)
      → IsMeasured t w
      → IsMeasured t (end_color_override (in_mode true t) total i w).1
  unfolding end_color_override
  end_color_override-IsMeasured total i w h =
      search (if_second, measured_rules, restore_previous-IsMeasured, restore_own-IsMeasured)

  write_anchor_override-IsMeasured :
      (m : Match) (bg : String) (total i : ℕ) (w : Writer)
      → IsMeasured t w
      → IsMeasured t (write_anchor_override (in_mode true t) m bg total i w).1
  unfolding write_anchor_override
  write_anchor_override-IsMeasured m bg total i w h =
      elim (Bool-cases (text_of m.anchor == reset_anchor_end)) [
        | inl reset ↦ rw (write_anchor_override, reset) (end_color_override-IsMeasured total i w h)
        | inr other ↦ elim (Option-cases (style_sequence (text_of m.anchor) known_styles)) [
          | inl color ↦
              rw (write_anchor_override, other, color) (override_colors-IsMeasured t _ _ w h)
          | inr (sequence, style) ↦
              rw (write_anchor_override, other, style) (sequence-IsMeasured t (runes sequence) w h)
        ]
      ]

  write_matched-IsMeasured :
      (bg : String) (total : ℕ) (o : Option Match) (i : ℕ) (s : Char) (w : Writer)
      → HasNoLink o
      → IsMeasured t w
      → IsMeasured t (write_matched (in_mode true t) bg total o i s w).1
  unfolding write_matched write_anchor
  write_matched-IsMeasured bg total none i s w q h = write-IsMeasured s w h
  write_matched-IsMeasured bg total (some m) i s w (a, b, c, d) h =
      rw (write_matched, write_anchor, a, b, c, d)
        (if_second (text_of m.anchor == empty_anchor) (length m.anchor - 1, w) _ h
          (write_anchor_override-IsMeasured m bg total i w h))

  write_next-IsMeasured :
      (bg : String) (total i : ℕ) (s : Char) (rest : Runes) (w : Writer)
      → HasNoLink (find_anchor (s ∷ rest))
      → IsMeasured t w
      → IsMeasured t (write_next (in_mode true t) bg total i s rest w).1
  unfolding write_next
  write_next-IsMeasured bg total i s rest w q h = elim (Bool-cases (is b'<' s)) [
    | inr other ↦
        rw (write_next, write_token, no_token (s ∷ rest) w, other) (write-IsMeasured s w h)
    | inl bracket ↦
        rw (write_next, write_token, no_token (s ∷ rest) w, bracket)
          (write_matched-IsMeasured bg total (find_anchor (s ∷ rest)) i s w q h)
  ]

  write_runes-IsMeasured :
      (bg : String) (total skip i : ℕ) (s : Runes) (w : Writer)
      → IsLinkless s
      → IsMeasured t w
      → IsMeasured t (write_runes (in_mode true t) bg total skip i s w).1
  unfolding write_runes
  write_runes-IsMeasured bg total skip i [] w q h = h
  write_runes-IsMeasured bg total (suc skip) i (c ∷ rest) w q h =
      write_runes-IsMeasured bg total skip (suc i) rest w q.1 h
  write_runes-IsMeasured bg total zero i (c ∷ rest) w q h =
      let (skip, next) = write_next (in_mode true t) bg total i c rest w in
      write_runes-IsMeasured bg total skip (suc i) rest next q.1
        (write_next-IsMeasured bg total i c rest w q.0 h)

  start_style-IsMeasured :
      (anchor : String) (styles : List Style) (q : Bool) (w : Writer)
      → IsMeasured t w
      → IsMeasured t (start_style (in_mode true t) anchor styles q w).1
  unfolding start_style
  start_style-IsMeasured anchor [] q w h = h
  start_style-IsMeasured anchor (style ∷ styles) q w h =
      elim (Bool-cases (style.anchor_start == anchor)) [
        | inl same ↦
            rw same (start_style-IsMeasured anchor styles false _ (sequence-IsMeasured t _ w h))
        | inr other ↦ rw other (start_style-IsMeasured anchor styles q w h)
      ]

  start_override-IsMeasured :
      (o : Option Match) (w : Writer)
      → IsMeasured t w
      → IsMeasured t (start_override (in_mode true t) o w)
  unfolding start_override
  start_override-IsMeasured none w h = h
  start_override-IsMeasured (some m) w h =
      let styled = start_style-IsMeasured (text_of m.anchor) known_styles true w h in
      search (measured_rules, h, styled)

  start_hyperlink-IsMeasured :
      (o : Option Match) (w : Writer)
      → HasNoLink o
      → IsMeasured t w
      → IsMeasured t (start_hyperlink (in_mode true t) (or_no_match o) w)
  unfolding start_hyperlink
  start_hyperlink-IsMeasured none w q h = h
  start_hyperlink-IsMeasured (some m) w q h = rw (start_hyperlink, q.0) h

  start_text-IsMeasured :
      (background foreground : String) (txt : Runes) (w : Writer)
      → HasNoLink (find_anchor txt)
      → IsMeasured t w
      → IsMeasured t (start_text (in_mode true t) background foreground txt w)
  unfolding start_text set_colors
  start_text-IsMeasured background foreground txt w q h =
      let u = in_mode true t in
      let colored = set_colors u background foreground w in
      let overridden = start_override u (find_anchor txt) colored in
      start_hyperlink-IsMeasured (find_anchor txt) (write_segment_colors u overridden) q (
        segment_colors-IsMeasured t overridden
          (start_override-IsMeasured (find_anchor txt) colored h))

  first-HasNoLink : (txt : Runes) → IsLinkless txt → HasNoLink (find_anchor txt)
  unfolding find_anchor
  first-HasNoLink [] q = tt
  first-HasNoLink (c ∷ s) q = q.0

  pub write_text-IsMeasured :
      (background foreground : String) (txt : Runes) (w : Writer)
      → IsLinkless txt
      → IsMeasured t w
      → IsMeasured t (write_text (in_mode true t) background foreground txt w)
  unfolding write_text end_text text_behind
  write_text-IsMeasured background foreground txt w q h =
      let u = in_mode true t in
      let rest = text_behind u txt in
      if-IsMeasured t (is_empty txt) w _ h (
        drop_last-IsMeasured t _ (
          sequence-IsMeasured t _ _ (
            write_runes-IsMeasured background (length rest) 0 0 rest _
              (drop-IsLinkless (length (or_no_match (find_anchor txt)).anchor) txt q)
              (start_text-IsMeasured background foreground txt w (first-HasNoLink txt q) h))))

-- Where no clock tokens are kept and no hyperlink is open in a writer that was emptied, a text without
-- hyperlink anchors has in every mode the length that the plain terminal's text is wide: neither the
-- colours nor the shell's escapes count.
pub length-write_text :
    (t : Terminal) (p : Bool) (background foreground : String) (txt : Runes) (w : Writer)
    → HasNoClock t
    → IsLinkless txt
    → w.builder ≡ []
    → w.length ≡ 0
    → w.is_hyperlink ≡ false
    → (write_text (in_mode p t) background foreground txt w).length
      ≡ width t.rune_width (write_text (in_mode true t) background foreground txt w).builder
length-write_text t p background foreground txt w no_clock q b l h =
    let (c, same) =
      write_text-Alike (in_mode true t) p no_clock background foreground txt w w.builder in
    let measured =
      write_text-IsMeasured t background foreground txt w q
        (l ∙ ap (width t.rune_width) (sym b), h) in
    ap (λ x. x.length) same ∙ measured.0
