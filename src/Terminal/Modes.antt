-- ===== src/Terminal/Modes.antt =====
-- Two terminals that differ in `Plain` alone write different texts, and do all else alike.
pub mod Anchors
pub mod Lengths
pub mod Widths
pub mod Counting
use Prim.Native.Char.{Char}
use prompto.Prelude.{
  ◌∙◌, ◌==◌, ℕ, Bool, true, false, String, string_comparable, ◌≡◌, refl, subst, sym, if◌then◌else◌,
  Bool-cases, ◌⊎◌, inl, inr, ◌++◌, [], ◌∷◌, ◌+◌, ap, Option, none, some,
}
use prompto.Prelude.Runes.{Runes, runes}
use prompto.Color.Ansi.{is_transparent}
use prompto.Terminal.History.{foreground}
use prompto.Terminal.Output.{
  Terminal, Writer, emit, write_escaped_ansi_string, write, write_raw, escaped,
}
use prompto.Terminal.Coloring.{
  push, drop_last, set_transparent, set_invisible, write_colors, write_on_background,
  write_starting_colors, write_segment_colors, restore_previous, restore_own, write_override,
  override_colors,
}

abbrev pub with_builder : Runes → Writer → Writer
with_builder b w = record w { builder = b }

-- The second state is the first one with another text.
abbrev pub Differs : Writer → Writer → Type 0
Differs w v = (b : Runes) × (v ≡ with_builder b w)

pub Differs-with_builder : (w : Writer) (b : Runes) → Differs w (with_builder b w)
Differs-with_builder w b = (b, refl)

pub unchanged_Differs : (w : Writer) → Differs w w
unchanged_Differs w = (w.builder, refl)

pub reversed_Differs : (w v : Writer) → Differs w v → Differs v w
reversed_Differs w v (b, e) = (w.builder, ap (with_builder w.builder) (sym e))

pub chained_Differs : (w v x : Writer) → Differs w v → Differs v x → Differs w x
chained_Differs w v x (b, e) (c, d) = (c, d ∙ ap (with_builder c) e)

pub if-Differs :
    (x : Bool) (a b c d : Writer)
    → Differs a c
    → Differs b d
    → Differs (if x then a else b) (if x then c else d)
if-Differs true a b c d h k = h
if-Differs false a b c d h k = k

-- The second operation does on another text what the first one does, but for the text.
abbrev pub Alike : (Writer → Writer) → (Writer → Writer) → Type 0
Alike f g = (w : Writer) (b : Runes) → Differs (f w) (g (with_builder b w))

pub Alike-apply :
    (f g : Writer → Writer) (w v : Writer) → Alike f g → Differs w v → Differs (f w) (g v)
Alike-apply f g w v h (b, e) = subst (λ x. Differs (f w) (g x)) (sym e) (h w b)

pub emit-Differs : (txt : Runes) (w : Writer) → Differs w (emit txt w)
unfolding emit
emit-Differs txt w = (w.builder ++ txt, refl)

pub emit_both : (x y : Runes) (w v : Writer) → Differs w v → Differs (emit x w) (emit y v)
unfolding emit
emit_both x y w v (b, e) = (v.builder ++ y, ap (with_builder (v.builder ++ y)) e)

pub push_both :
    (bg fg : String) (w v : Writer) → Differs w v → Differs (push bg fg w) (push bg fg v)
unfolding push
push_both bg fg w v (b, e) = (b, ap (push bg fg) e)

pub drop_last_both : (w v : Writer) → Differs w v → Differs (drop_last w) (drop_last v)
unfolding drop_last
drop_last_both w v (b, e) = (b, ap drop_last e)

pub set_transparent_both :
    (q : Bool) (w v : Writer) → Differs w v → Differs (set_transparent q w) (set_transparent q v)
unfolding set_transparent
set_transparent_both q w v (b, e) = (b, ap (set_transparent q) e)

pub set_invisible_both :
    (q : Bool) (w v : Writer) → Differs w v → Differs (set_invisible q w) (set_invisible q v)
unfolding set_invisible
set_invisible_both q w v (b, e) = (b, ap (set_invisible q) e)

-- An escape sequence changes no more than the text, and nothing in a plain terminal.
sequence-Differs :
    (t : Terminal) (x : Runes) (w : Writer) → Differs w (write_escaped_ansi_string t x w)
unfolding write_escaped_ansi_string
sequence-Differs t x w = elim (Bool-cases t.plain) [
  | inl plain ↦ rw plain (unchanged_Differs w)
  | inr colored ↦ elim (Bool-cases (t.formats.escape == "")) [
    | inl bare ↦ rw (colored, bare) (emit-Differs _ w)
    | inr wrapped ↦ rw (colored, wrapped) (emit-Differs _ w)
  ]
]

pub sequence_both :
    (t u : Terminal) (x : Runes) (w v : Writer)
    → Differs w v
    → Differs (write_escaped_ansi_string t x w) (write_escaped_ansi_string u x v)
sequence_both t u x w v h =
    let left = write_escaped_ansi_string t x w in
    let right = write_escaped_ansi_string u x v in
    chained_Differs left w right (reversed_Differs w left (sequence-Differs t x w))
      (chained_Differs w v right h (sequence-Differs u x v))

-- The same terminal in another mode.
abbrev pub in_mode : Bool → Terminal → Terminal
in_mode p t = record t { plain = p }

pub ruleset same_text_rules = (
  if-Differs, emit_both, push_both, drop_last_both, set_transparent_both, set_invisible_both,
  sequence_both, Differs-with_builder, unchanged_Differs,
)

module _ (t : Terminal) (p : Bool) where
  pub write_segment_colors-Alike :
      Alike (write_segment_colors t) (write_segment_colors (in_mode p t))
  unfolding write_segment_colors write_starting_colors write_colors write_on_background
  write_segment_colors-Alike w b = search same_text_rules depth 12 fits 3000

  restore_previous-Alike :
      (bg fg : String) → Alike (restore_previous t bg fg) (restore_previous (in_mode p t) bg fg)
  unfolding restore_previous
  restore_previous-Alike bg fg w b = search same_text_rules depth 12 fits 3000

  restore_own-Alike : Alike (restore_own t) (restore_own (in_mode p t))
  unfolding restore_own
  restore_own-Alike w b = search same_text_rules depth 12 fits 3000

  pub override_colors-Alike :
      (bg fg : String) → Alike (override_colors t bg fg) (override_colors (in_mode p t) bg fg)
  unfolding override_colors write_override write_on_background is_transparent set_invisible
      foreground push
  override_colors-Alike bg fg w b = search same_text_rules depth 12 fits 3000
