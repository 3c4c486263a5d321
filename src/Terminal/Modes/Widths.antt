-- ===== src/Terminal/Modes/Widths.antt =====
-- What `Write` of src/terminal/writer.go counts in a plain terminal.
use Prim.Native.Char.{Char}
use prompto.Prelude.{
  ℕ, zero, suc, ◌+◌, Bool, true, false, [], ◌∷◌, ◌++◌, Option, none, some, String, ◌≡◌,
  if◌then◌else◌, ◌==◌, string_comparable, arith, drop,
}
use prompto.Prelude.Runes.{Runes, text_of}
use prompto.Terminal.Anchor.{
  Match, find_anchor, hyper_link_start, hyper_link_text, hyper_link_text_end, hyper_link_end,
}
use prompto.Terminal.Output.{Terminal, Writer, write_escaped_ansi_string}
use prompto.Terminal.Coloring.{
  override_colors, write_override, write_on_background, push, drop_last, set_transparent,
  set_invisible, write_segment_colors, write_starting_colors, write_colors, restore_previous,
  restore_own,
}
use prompto.Terminal.Modes.{in_mode}

-- No hyperlink anchor.
abbrev pub HasNoLink : Option Match → Type 0
HasNoLink none = Unit
HasNoLink (some m) =
    ((text_of m.anchor == hyper_link_start) ≡ false)
    × ((text_of m.anchor == hyper_link_text) ≡ false)
    × ((text_of m.anchor == hyper_link_text_end) ≡ false)
    × ((text_of m.anchor == hyper_link_end) ≡ false)

-- A text in which no hyperlink anchor stands, at any place.
abbrev pub IsLinkless : Runes → Type 0
IsLinkless [] = Unit
IsLinkless (c ∷ s) = HasNoLink (find_anchor (c ∷ s)) × IsLinkless s

abbrev pub width : (Char → ℕ) → Runes → ℕ
width f [] = 0
width f (c ∷ s) = f c + width f s

pub width-append : (f : Char → ℕ) (s u : Runes) → width f (s ++ u) ≡ width f s + width f u
width-append f [] u = omega arith
width-append f (c ∷ s) u = omega (arith, width-append f s u)

pub drop-IsLinkless : (n : ℕ) (s : Runes) → IsLinkless s → IsLinkless (drop n s)
drop-IsLinkless zero s h = h
drop-IsLinkless (suc n) [] h = tt
drop-IsLinkless (suc n) (c ∷ s) h = drop-IsLinkless n s h.1

module _ (t : Terminal) where
  -- The length is the width of the text, and no hyperlink is open.
  abbrev pub IsMeasured : Writer → Type 0
  IsMeasured w = (w.length ≡ width t.rune_width w.builder) × (w.is_hyperlink ≡ false)

  pub if-IsMeasured :
      (x : Bool) (a b : Writer) → IsMeasured a → IsMeasured b → IsMeasured (if x then a else b)
  if-IsMeasured true a b h k = h
  if-IsMeasured false a b h k = k

  pub push-IsMeasured : (bg fg : String) (w : Writer) → IsMeasured w → IsMeasured (push bg fg w)
  unfolding push
  push-IsMeasured bg fg w h = h

  pub drop_last-IsMeasured : (w : Writer) → IsMeasured w → IsMeasured (drop_last w)
  unfolding drop_last
  drop_last-IsMeasured w h = h

  pub set_transparent-IsMeasured :
      (q : Bool) (w : Writer) → IsMeasured w → IsMeasured (set_transparent q w)
  unfolding set_transparent
  set_transparent-IsMeasured q w h = h

  pub set_invisible-IsMeasured :
      (q : Bool) (w : Writer) → IsMeasured w → IsMeasured (set_invisible q w)
  unfolding set_invisible
  set_invisible-IsMeasured q w h = h

  -- A plain terminal writes no sequence.
  pub sequence-IsMeasured :
      (x : Runes) (w : Writer)
      → IsMeasured w
      → IsMeasured (write_escaped_ansi_string (in_mode true t) x w)
  unfolding write_escaped_ansi_string
  sequence-IsMeasured x w h = h

  pub ruleset measured_rules = (
    if-IsMeasured, push-IsMeasured, drop_last-IsMeasured, set_transparent-IsMeasured,
    set_invisible-IsMeasured, sequence-IsMeasured,
  )

  pub segment_colors-IsMeasured :
      (w : Writer) → IsMeasured w → IsMeasured (write_segment_colors (in_mode true t) w)
  unfolding write_segment_colors write_starting_colors write_colors write_on_background
  segment_colors-IsMeasured w h = search measured_rules depth 12 fits 3000

  pub override_colors-IsMeasured :
      (bg fg : String) (w : Writer)
      → IsMeasured w
      → IsMeasured (override_colors (in_mode true t) bg fg w)
  unfolding override_colors write_override write_on_background
  override_colors-IsMeasured bg fg w h = search measured_rules depth 12 fits 3000

  pub restore_previous-IsMeasured :
      (bg fg : String) (w : Writer)
      → IsMeasured w
      → IsMeasured (restore_previous (in_mode true t) bg fg w)
  unfolding restore_previous
  restore_previous-IsMeasured bg fg w h = search measured_rules depth 12 fits 3000

  pub restore_own-IsMeasured :
      (w : Writer) → IsMeasured w → IsMeasured (restore_own (in_mode true t) w)
  unfolding restore_own
  restore_own-IsMeasured w h = search measured_rules depth 12 fits 3000
