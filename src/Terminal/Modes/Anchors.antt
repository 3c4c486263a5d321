-- ===== src/Terminal/Modes/Anchors.antt =====
-- The modes at the anchors of `Write` in src/terminal/writer.go.
use Prim.Native.Char.{Char}
use prompto.Prelude.{
  ℕ, ◌++◌, Option-cases, suc, ◌-◌, Bool, true, false, [], ◌∷◌, String, ◌≡◌, refl, ap, inl, inr,
  if◌then◌else◌, ◌==◌, string_comparable, length, eqb, Bool-cases,
}
use prompto.Prelude.Runes.{Runes, runes, text_of}
use prompto.Terminal.Anchor.{
  empty_anchor, hyper_link_end, hyper_link_text_end, hyper_link_text, hyper_link_start, Match,
  known_styles, reset_anchor_end,
}
use prompto.Terminal.Output.{escaped, Terminal, Writer, write, emit}
use prompto.Terminal.Coloring.{
  style_sequence, restore_previous, end_color_override, write_anchor_override,
}
use prompto.Terminal.Writer.{write_anchor, default_text}
use prompto.Terminal.Modes.{
  sequence_both, Differs, Alike, in_mode, with_builder, same_text_rules, override_colors-Alike,
  restore_own-Alike, restore_previous-Alike, Alike-apply,
}

-- Moves of the index by as much, on states that differ in the text.
abbrev pub Together : ℕ × Writer → ℕ × Writer → Type 0
Together m n = (m.0 ≡ n.0) × Differs m.1 n.1

if-Together :
    (x : Bool) (a b c d : ℕ × Writer)
    → Together a c
    → Together b d
    → Together (if x then a else b) (if x then c else d)
if-Together true a b c d h k = h
if-Together false a b c d h k = k

together : (n : ℕ) (w v : Writer) → Differs w v → Together (n, w) (n, v)
together n w v h = (refl, h)

module _ (t : Terminal) (p : Bool) where
  pub write-Alike : (s : Char) → Alike (write t s) (write (in_mode p t) s)
  unfolding write emit
  write-Alike s w b = elim (Bool-cases w.is_invisible) [
    | inl invisible ↦ rw (write, invisible) (b, refl)
    | inr visible ↦ elim (Bool-cases w.is_hyperlink) [
      | inl link ↦ rw (write, visible, link) (b ++ s ∷ [], refl)
      | inr text ↦ rw (write, visible, text) (b ++ escaped (in_mode p t) s, refl)
    ]
  ]

  restore_previous_both :
      (bg fg : String) (w v : Writer)
      → Differs w v
      → Differs (restore_previous t bg fg w) (restore_previous (in_mode p t) bg fg v)
  restore_previous_both bg fg w v h =
      Alike-apply (restore_previous t bg fg) (restore_previous (in_mode p t) bg fg) w v
        (restore_previous-Alike t p bg fg) h

  end_color_override-Together :
      (total i : ℕ) (w : Writer) (b : Runes)
      → Together
          (end_color_override t total i w)
          (end_color_override (in_mode p t) total i (with_builder b w))
  unfolding end_color_override
  end_color_override-Together total i w b =
      search (if-Together, together, same_text_rules, restore_previous_both, restore_own-Alike)
        depth 12

  write_anchor_override-Together :
      (m : Match) (bg : String) (total i : ℕ) (w : Writer) (b : Runes)
      → Together
          (write_anchor_override t m bg total i w)
          (write_anchor_override (in_mode p t) m bg total i (with_builder b w))
  unfolding write_anchor_override
  write_anchor_override-Together m bg total i w b =
      elim (Bool-cases (text_of m.anchor == reset_anchor_end)) [
        | inl reset ↦ rw (write_anchor_override, reset) (end_color_override-Together total i w b)
        | inr other ↦ elim (Option-cases (style_sequence (text_of m.anchor) known_styles)) [
          | inl color ↦
              rw (write_anchor_override, other, color) (refl, override_colors-Alike t p _ _ w b)
          | inr (sequence, style) ↦
              rw (write_anchor_override, other, style)
                (refl, sequence_both t (in_mode p t) _ w (with_builder b w) (b, refl))
        ]
      ]

  default_text-Alike : (i : ℕ) → Alike (default_text i) (default_text i)
  unfolding default_text emit
  default_text-Alike i w b = elim (Bool-cases (eqb (suc w.hyperlink_text_position) i)) [
    | inl bare ↦ rw (default_text, bare) (b ++ runes "link", refl)
    | inr said ↦ rw (default_text, said) (b, refl)
  ]

  pub write_anchor-Together :
      (bg : String) (total : ℕ) (m : Match) (i : ℕ) (w : Writer) (b : Runes)
      → Together
          (write_anchor t bg total m i w)
          (write_anchor (in_mode p t) bg total m i (with_builder b w))
  unfolding write_anchor default_text emit
  write_anchor-Together bg total m i w b =
      let jump = length m.anchor - 1 in
      elim (Bool-cases (text_of m.anchor == hyper_link_start)) [
        | inl start ↦ rw (write_anchor, start) (refl, (_, refl))
        | inr a ↦ elim (Bool-cases (text_of m.anchor == hyper_link_text)) [
          | inl center ↦ rw (write_anchor, a, center) (refl, (_, refl))
          | inr c ↦ elim (Bool-cases (text_of m.anchor == hyper_link_text_end)) [
            | inl closing ↦ rw (write_anchor, a, c, closing) (refl, default_text-Alike i w b)
            | inr d ↦ elim (Bool-cases (text_of m.anchor == hyper_link_end)) [
              | inl stop ↦ rw (write_anchor, a, c, d, stop) (refl, (_, refl))
              | inr e ↦ elim (Bool-cases (text_of m.anchor == empty_anchor)) [
                | inl nothing ↦ rw (write_anchor, a, c, d, e, nothing) (refl, (b, refl))
                | inr f ↦
                    let (n, h) = write_anchor_override-Together m bg total i w b in
                    rw (write_anchor, a, c, d, e, f) (ap (λ k. k - i) n, h)
              ]
            ]
          ]
        ]
      ]
