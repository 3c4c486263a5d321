-- ===== src/Terminal/Modes/Lengths.antt =====
-- The modes through the whole of `Write` of src/terminal/writer.go.
use Prim.Native.Char.{Char}
use prompto.Prelude.{
  List, ℕ, Option-cases, zero, suc, Bool, true, false, [], ◌∷◌, String, ◌≡◌, refl, sym, ap, ◌⊎◌,
  inl, inr, if◌then◌else◌, ◌==◌, string_comparable, Option, none, some, length, arith, Bool-cases,
}
use prompto.Prelude.Runes.{is_empty, is, Runes, runes, text_of}
use prompto.Shell.Formats.{zsh, bash}
use prompto.Terminal.Anchor.{reset_end, Style, find_anchor, hyper_link_start, Match, known_styles}
use prompto.Terminal.Output.{Terminal, Writer, emit, shell_clock_token_end}
use prompto.Terminal.Coloring.{write_segment_colors, push, as_ansi_colors}
use prompto.Terminal.Writer.{
  or_no_match, start_style, write_matched, write_next, write_token, write_runes, start_text,
  write_text, start_override, set_colors, start_hyperlink, end_text, text_behind,
}
use prompto.Terminal.Modes.{
  drop_last_both, Differs-with_builder, push_both, sequence_both, if-Differs, Differs, Alike,
  in_mode, with_builder, write_segment_colors-Alike, Alike-apply,
}
use prompto.Terminal.Modes.Anchors.{Together, write-Alike, write_anchor-Together}

-- A shell that has no clock tokens, or a prompt that keeps none.
abbrev pub HasNoClock : Terminal → Type 0
HasNoClock t = (t.interactive ≡ true) ⊎ (((t.shell == zsh) ≡ false) × ((t.shell == bash) ≡ false))

-- Two loops that go on from there.
resume :
    (f g : ℕ → Writer → ℕ × Writer)
    → ((k : ℕ) (w : Writer) (b : Runes) → Together (f k w) (g k (with_builder b w)))
    → (m n : ℕ × Writer) → Together m n
    → Together (f m.0 m.1) (g n.0 n.1)
resume f g h m n (e, (b, d)) = rw (sym e, d) (h m.0 m.1 b)

override_both :
    (is_link : Bool) (bg fg : String) (m n : Bool × Writer) (w v : Writer)
    → Differs w v
    → (m.0 ≡ n.0) × Differs m.1 n.1
    → Differs
        (if is_link then w else if m.0 then push bg fg m.1 else m.1)
        (if is_link then v else if n.0 then push bg fg n.1 else n.1)
override_both is_link bg fg m n w v h (e, k) = rw (sym e) (search (if-Differs, push_both, h, k))

module _ (t : Terminal) (p : Bool) (no_clock : HasNoClock t) where
  no_token : (q : Bool) (s : Runes) (w : Writer) → shell_clock_token_end (in_mode q t) s w ≡ none
  unfolding shell_clock_token_end
  no_token q s w = elim no_clock [
    | inl interactive ↦ rw (shell_clock_token_end, interactive) refl
    | inr (not_zsh, not_bash) ↦ ground (arith, not_zsh, not_bash)
  ]

  write_next-Together :
      (bg : String) (total i : ℕ) (s : Char) (rest : Runes) (w : Writer) (b : Runes)
      → Together
          (write_next t bg total i s rest w)
          (write_next (in_mode p t) bg total i s rest (with_builder b w))
  unfolding write_next
  write_next-Together bg total i s rest w b = elim (Bool-cases (is b'<' s)) [
    | inr other ↦
        rw
          (
            write_next,
            write_token,
            no_token t.plain (s ∷ rest) w,
            no_token p (s ∷ rest) (with_builder b w),
            other,
          )
          (refl, write-Alike t p s w b)
    | inl bracket ↦ elim (Option-cases (find_anchor (s ∷ rest))) [
      | inl unmatched ↦
          rw
            (
              write_next,
              write_token,
              no_token t.plain (s ∷ rest) w,
              no_token p (s ∷ rest) (with_builder b w),
              bracket,
              unmatched,
              write_matched,
            )
            (refl, write-Alike t p s w b)
      | inr (m, matched) ↦
          rw
            (
              write_next,
              write_token,
              no_token t.plain (s ∷ rest) w,
              no_token p (s ∷ rest) (with_builder b w),
              bracket,
              matched,
              write_matched,
            )
            (write_anchor-Together t p bg total m i w b)
    ]
  ]

  write_runes-Together :
      (bg : String) (total skip i : ℕ) (s : Runes) (w : Writer) (b : Runes)
      → Together
          (write_runes t bg total skip i s w)
          (write_runes (in_mode p t) bg total skip i s (with_builder b w))
  unfolding write_runes
  write_runes-Together bg total skip i [] w b = (refl, (b, refl))
  write_runes-Together bg total (suc skip) i (c ∷ rest) w b =
      write_runes-Together bg total skip (suc i) rest w b
  write_runes-Together bg total zero i (c ∷ rest) w b =
      resume (λ k x. write_runes t bg total k (suc i) rest x)
        (λ k x. write_runes (in_mode p t) bg total k (suc i) rest x)
        (λ k x d. write_runes-Together bg total k (suc i) rest x d)
        (write_next t bg total i c rest w)
        (write_next (in_mode p t) bg total i c rest (with_builder b w))
        (write_next-Together bg total i c rest w b)

  start_style-Together :
      (anchor : String) (styles : List Style) (q : Bool) (w v : Writer)
      → Differs w v
      → ((start_style t anchor styles q w).0 ≡ (start_style (in_mode p t) anchor styles q v).0)
        × Differs
            (start_style t anchor styles q w).1
            (start_style (in_mode p t) anchor styles q v).1
  unfolding start_style
  start_style-Together anchor [] q w v h = (refl, h)
  start_style-Together anchor (style ∷ styles) q w v h =
      elim (Bool-cases (style.anchor_start == anchor)) [
        | inl same ↦
            rw same
              (start_style-Together anchor styles false _ _ (sequence_both t (in_mode p t) _ w v h))
        | inr other ↦ rw other (start_style-Together anchor styles q w v h)
      ]

  start_override-Alike :
      (o : Option Match) → Alike (start_override t o) (start_override (in_mode p t) o)
  unfolding start_override as_ansi_colors
  start_override-Alike none w b = (b, refl)
  start_override-Alike (some m) w b =
      let (bg, fg) = as_ansi_colors t (text_of m.bg) (text_of m.fg) in
      override_both (text_of m.anchor == hyper_link_start) bg fg
        (start_style t (text_of m.anchor) known_styles true w)
        (start_style (in_mode p t) (text_of m.anchor) known_styles true (with_builder b w)) w
        (with_builder b w) (b, refl)
        (start_style-Together (text_of m.anchor) known_styles true w (with_builder b w) (b, refl))

  set_colors-Alike :
      (background foreground : String)
      → Alike (set_colors t background foreground) (set_colors (in_mode p t) background foreground)
  unfolding set_colors as_ansi_colors
  set_colors-Alike background foreground w b = (b, refl)

  start_hyperlink-Alike :
      (m : Match) → Alike (start_hyperlink t m) (start_hyperlink (in_mode p t) m)
  unfolding start_hyperlink emit
  start_hyperlink-Alike m w b = elim (Bool-cases (text_of m.anchor == hyper_link_start)) [
    | inl link ↦ rw (start_hyperlink, link) (_, refl)
    | inr text ↦ rw (start_hyperlink, text) (b, refl)
  ]

  at_start : Writer → Writer
  at_start w = record w { hyperlink_text_position = 0 }

  start_text-Alike :
      (background foreground : String) (txt : Runes)
      → Alike
          (start_text t background foreground txt)
          (start_text (in_mode p t) background foreground txt)
  unfolding start_text at_start
  start_text-Alike background foreground txt w b =
      let m = find_anchor txt in
      let colored = set_colors-Alike background foreground w b in
      let overridden =
        Alike-apply (start_override t m) (start_override (in_mode p t) m) _ _
          (start_override-Alike m) colored in
      let painted =
        Alike-apply (write_segment_colors t) (write_segment_colors (in_mode p t)) _ _
          (write_segment_colors-Alike t p) overridden in
      let (c, e) =
        Alike-apply (start_hyperlink t (or_no_match m))
          (start_hyperlink (in_mode p t) (or_no_match m)) _ _
          (start_hyperlink-Alike (or_no_match m)) painted in
      (c, ap at_start e)

  -- What `Write` does besides its text is the same in every mode, where no clock tokens are kept.
  pub write_text-Alike :
      (background foreground : String) (txt : Runes)
      → Alike
          (write_text t background foreground txt)
          (write_text (in_mode p t) background foreground txt)
  unfolding write_text end_text text_behind
  write_text-Alike background foreground txt w b =
      let rest = text_behind t txt in
      let u = in_mode p t in
      let started = start_text-Alike background foreground txt w b in
      let looped =
        resume (λ k x. write_runes t background (length rest) k 0 rest x)
          (λ k x. write_runes u background (length rest) k 0 rest x)
          (λ k x d. write_runes-Together background (length rest) k 0 rest x d)
          (0, start_text t background foreground txt w)
          (0, start_text u background foreground txt (with_builder b w)) (refl, started) in
      if-Differs (is_empty txt) _ _ _ _ (Differs-with_builder w b)
        (drop_last_both _ _ (sequence_both t u (runes reset_end) _ _ looped.1))
