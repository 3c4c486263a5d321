-- ===== src/Terminal/Writer/Stack.antt =====
-- What `Write` of src/terminal/writer.go leaves on the stack of colours.
use Prim.Native.Char.{Char}
use text.Mathlib.TextEquality.{eq_iff}
use prompto.Prelude.{
  ℕ, zero, suc, Bool, true, false, List, [], ◌∷◌, some, String, ◌≡◌, refl, ap, subst, sym, ◌∙◌, inl,
  inr, arith, length, Option-cases, if◌then◌else◌, ◌==◌, string_comparable, All,
}
use prompto.Prelude.Runes.{Runes, runes, is, Lacks, text_of, is_empty}
use prompto.Color.Keywords.{Set, transparent}
use prompto.Terminal.History.{History, add, pop, background, foreground}
use prompto.Terminal.Anchor.{Match, Style, find_anchor, known_styles, hyper_link_start, reset_end}
use prompto.Color.Ansi.{is_transparent, is_empty_color}
use prompto.Terminal.Output.{
  Terminal, Writer, write, write_raw, write_all_raw, shell_clock_token_end,
  write_escaped_ansi_string, emit,
}
use prompto.Terminal.Coloring.{
  set_invisible, write_segment_colors, write_starting_colors, write_colors, as_ansi_colors,
  drop_last, push,
}
use prompto.Terminal.Writer.{
  set_colors, start_hyperlink, or_no_match, start_override, write_runes, write_next, write_token,
  write_text, start_text, end_text, text_behind, start_style,
}

module _ (t : Terminal) where
  abbrev Stacks : History → Writer → Type 0
  Stacks h w = w.current_color ≡ h

  if-Stacks :
      (h : History) (x : Bool) (a b : Writer)
      → Stacks h a
      → Stacks h b
      → Stacks h (if x then a else b)
  if-Stacks h true a b p q = p
  if-Stacks h false a b p q = q

  emit-Stacks : (h : History) (x : Runes) (w : Writer) → Stacks h w → Stacks h (emit x w)
  unfolding emit
  emit-Stacks h x w p = p

  sequence-Stacks :
      (h : History) (x : Runes) (w : Writer)
      → Stacks h w
      → Stacks h (write_escaped_ansi_string t x w)
  unfolding write_escaped_ansi_string
  sequence-Stacks h x w p = search (if-Stacks, emit-Stacks)

  write-Stacks : (h : History) (s : Char) (w : Writer) → Stacks h w → Stacks h (write t s w)
  unfolding write
  write-Stacks h s w p = search (if-Stacks, emit-Stacks)

  write_raw-Stacks : (h : History) (s : Char) (w : Writer) → Stacks h w → Stacks h (write_raw t s w)
  unfolding write_raw
  write_raw-Stacks h s w p = search (if-Stacks, emit-Stacks)

  write_all_raw-Stacks :
      (h : History) (s : Runes) (w : Writer) → Stacks h w → Stacks h (write_all_raw t s w)
  unfolding write_all_raw
  write_all_raw-Stacks h [] w p = p
  write_all_raw-Stacks h (c ∷ s) w p =
      write_all_raw-Stacks h s (write_raw t c w) (write_raw-Stacks h c w p)

  write_next-Stacks :
      (h : History) (bg : String) (total i : ℕ) (c : Char) (rest : Runes) (w : Writer)
      → is b'<' c ≡ false
      → Stacks h w
      → Stacks h (write_next t bg total i c rest w).1
  unfolding write_next
  write_next-Stacks h bg total i c rest w q p =
      elim (Option-cases (shell_clock_token_end t (c ∷ rest) w)) [
        | inl absent ↦ rw (write_next, write_token, absent, q) (write-Stacks h c w p)
        | inr (j, token) ↦ rw (write_next, write_token, token) (write_all_raw-Stacks h _ w p)
      ]

  write_runes-Stacks :
      (h : History) (bg : String) (total skip i : ℕ) (s : Runes) (w : Writer)
      → Lacks b'<' s
      → Stacks h w
      → Stacks h (write_runes t bg total skip i s w).1
  unfolding write_runes
  write_runes-Stacks h bg total skip i [] w q p = p
  write_runes-Stacks h bg total (suc skip) i (c ∷ s) w q p =
      write_runes-Stacks h bg total skip (suc i) s w q.1 p
  write_runes-Stacks h bg total zero i (c ∷ s) w q p =
      let (skip, next) = write_next t bg total i c s w in
      write_runes-Stacks h bg total skip (suc i) s next q.1
        (write_next-Stacks h bg total i c s w q.0 p)

  end_text-Stacks :
      (last : Set) (h : History) (w : Writer) → Stacks (last ∷ h) w → Stacks h (end_text t w)
  unfolding end_text drop_last pop
  end_text-Stacks last h w p = ap pop (sequence-Stacks (last ∷ h) (runes reset_end) w p)

  write_colors-Stacks :
      (h : History) (bg fg : String) (w : Writer) → Stacks h w → Stacks h (write_colors t bg fg w)
  unfolding write_colors
  write_colors-Stacks h bg fg w p = search (if-Stacks, sequence-Stacks) depth 8

  start_style_none :
      (anchor : String) (styles : List Style) (q : Bool) (w : Writer)
      → All (λ style. (style.anchor_start == anchor) ≡ false) styles
      → start_style t anchor styles q w ≡ (q, w)
  unfolding start_style
  start_style_none anchor [] q w a = refl
  start_style_none anchor (style ∷ styles) q w a =
      rw (start_style, a.0) (start_style_none anchor styles q w a.1)

  abbrev half : String → Set
  half f = record { background = ""; foreground = f }

  add-half :
      (b f : String)
      → (b == "") ≡ false
      → add b f (half f ∷ []) ≡ record { background = b; foreground = f } ∷ half f ∷ []
  unfolding add
  add-half b f nb = ground (arith, eq_iff "" b, eq_iff b "")

  -- The colours of an override that has no background are pushed twice.
  starting_colors-Stacks :
      (b f : String) (w : Writer)
      → (b == "") ≡ false
      → (f == transparent) ≡ false
      → Stacks (half f ∷ []) w
      → Stacks
          (record { background = b; foreground = f } ∷ half f ∷ [])
          (write_starting_colors t b f w)
  unfolding write_starting_colors is_transparent push set_invisible
  starting_colors-Stacks b f w nb nf p =
      let painted = write_colors-Stacks (half f ∷ []) b f (set_invisible false w) p in
      rw (write_starting_colors, is_transparent, nf) (ap (add b f) painted ∙ add-half b f nb)

  own_background :
      (f : String) (h : History) (own : String)
      → h ≡ half f ∷ []
      → (if is_empty_color (background h) then own else background h) ≡ own
  unfolding background is_empty_color
  own_background f h own p = rw p refl

  last_foreground :
      (f : String) (h : History) (own : String)
      → (f == "") ≡ false
      → h ≡ half f ∷ []
      → (if is_empty_color (foreground h) then own else foreground h) ≡ f
  unfolding foreground is_empty_color
  last_foreground f h own ne p = rw (p, foreground, is_empty_color, ne) refl

  segment_colors-Stacks :
      (b f : String) (w : Writer)
      → (b == "") ≡ false
      → (f == "") ≡ false
      → (f == transparent) ≡ false
      → w.background_color ≡ b
      → Stacks (half f ∷ []) w
      → Stacks (record { background = b; foreground = f } ∷ half f ∷ []) (write_segment_colors t w)
  unfolding write_segment_colors background foreground is_empty_color
  segment_colors-Stacks b f w nb ne nf e p =
      let start_bg = own_background f w.current_color w.background_color p ∙ e in
      let start_fg = last_foreground f w.current_color w.foreground_color ne p in
      ap (λ x. x.current_color) (λ k. write_starting_colors t (start_bg k) (start_fg k) w)
      ∙ starting_colors-Stacks b f w nb nf p

  start_override-Stacks :
      (m : Match) (f : String) (w : Writer)
      → All (λ style. (style.anchor_start == text_of m.anchor) ≡ false) known_styles
      → (text_of m.anchor == hyper_link_start) ≡ false
      → as_ansi_colors t (text_of m.bg) (text_of m.fg) ≡ ("", f)
      → Stacks [] w
      → start_override t (some m) w ≡ record w { current_color = half f ∷ [] }
  unfolding start_override push add
  start_override-Stacks m f w a l c p =
      rw (start_override, l, start_style_none (text_of m.anchor) known_styles true w a, c, p) refl

  hyperlink-Stacks :
      (h : History) (m : Match) (w : Writer)
      → (text_of m.anchor == hyper_link_start) ≡ false
      → Stacks h w
      → Stacks h (start_hyperlink t m w)
  unfolding start_hyperlink
  hyperlink-Stacks h m w l p = rw (start_hyperlink, l) p

  started-Stacks :
      (bg fg : String) (txt : Runes) (w : Writer) (m : Match) (b g f : String)
      → find_anchor txt ≡ some m
      → All (λ style. (style.anchor_start == text_of m.anchor) ≡ false) known_styles
      → (text_of m.anchor == hyper_link_start) ≡ false
      → as_ansi_colors t bg fg ≡ (b, g)
      → as_ansi_colors t (text_of m.bg) (text_of m.fg) ≡ ("", f)
      → (b == "") ≡ false
      → (f == "") ≡ false
      → (f == transparent) ≡ false
      → Stacks [] w
      → Stacks (record { background = b; foreground = f } ∷ half f ∷ []) (start_text t bg fg txt w)
  unfolding start_text set_colors
  started-Stacks bg fg txt w m b g f found a l own override nb ne nf p =
      let colored = set_colors t bg fg w in
      let pushed = start_override-Stacks m f colored a l override p in
      let painted =
        segment_colors-Stacks b f (start_override t (some m) colored) nb ne nf
          (ap (λ x. x.background_color) pushed ∙ ap (λ c. c.0) own)
          (ap (λ x. x.current_color) pushed) in
      let h = record { background = b; foreground = f } ∷ half f ∷ [] in
      subst
        (λ o.
          Stacks h (
            start_hyperlink t (or_no_match o)
              (write_segment_colors t (start_override t o colored))))
        (sym found)
        (hyperlink-Stacks h m (write_segment_colors t (start_override t (some m) colored)) l
          painted)

  -- Let a text that is written with an empty colour stack begin with an override whose background
  -- resolves to no colour, while the background that the text is given resolves to one; let the
  -- override be no style and no hyperlink, its foreground be a colour that is not transparent, and the
  -- text behind it have no further anchor. Then the stack is not empty behind the text: it has one
  -- entry, the override's foreground.
  pub write_text_leaks :
      (bg fg : String) (txt : Runes) (w : Writer) (m : Match) (b g f : String)
      → is_empty txt ≡ false
      → find_anchor txt ≡ some m
      → All (λ style. (style.anchor_start == text_of m.anchor) ≡ false) known_styles
      → (text_of m.anchor == hyper_link_start) ≡ false
      → as_ansi_colors t bg fg ≡ (b, g)
      → as_ansi_colors t (text_of m.bg) (text_of m.fg) ≡ ("", f)
      → (b == "") ≡ false
      → (f == "") ≡ false
      → (f == transparent) ≡ false
      → Lacks b'<' (text_behind t txt)
      → w.current_color ≡ []
      → (write_text t bg fg txt w).current_color ≡ half f ∷ []
  unfolding write_text
  write_text_leaks bg fg txt w m b g f e found a l own override nb ne nf q p =
      let started = start_text t bg fg txt w in
      let rest = text_behind t txt in
      let stacked : started.current_color
          ≡ record { background = b; foreground = f } ∷ half f ∷ [] =
        started-Stacks bg fg txt w m b g f found a l own override nb ne nf p in
      let looped = write_runes-Stacks _ bg (length rest) 0 0 rest started q stacked in
      rw (write_text, e) (end_text-Stacks _ (half f ∷ []) _ looped)
