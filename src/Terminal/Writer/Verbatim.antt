-- ===== src/Terminal/Writer/Verbatim.antt =====
-- What `Write` of src/terminal/writer.go does with a text that holds no anchors.
use Prim.Native.Char.{Char}
use mathlib.Core.List.{append_assoc, append-nil}
use prompto.Prelude.{
  ℕ, suc, ◌+◌, false, [], ◌∷◌, ◌++◌, none, String, ◌≡◌, refl, ap, sym, ◌∙◌, inl, inr, arith, length,
  string_comparable,
}
use prompto.Prelude.Runes.{Runes, is, Lacks, replace, is_empty}
use prompto.Terminal.Anchor.{find_anchor}
use prompto.Terminal.Output.{Terminal, Writer, write, escaped, shell_clock_token_end, emit}
use prompto.Terminal.Writer.{
  write_runes, write_next, write_token, write_text, start_text, end_text, text_behind,
}
use prompto.Terminal.Modes.Lengths.{HasNoClock}
use prompto.Terminal.Modes.Widths.{width}

module _ (t : Terminal) (no_clock : HasNoClock t) where
  -- The state behind a text that is shown as it is.
  abbrev pub shown : Runes → Writer → Writer
  shown s w = record w {
    builder = w.builder ++ replace (escaped t) s;
    length = w.length + width t.rune_width s;
  }

  no_token : (s : Runes) (w : Writer) → shell_clock_token_end t s w ≡ none
  unfolding shell_clock_token_end
  no_token s w = elim no_clock [
    | inl interactive ↦ rw (shell_clock_token_end, interactive) refl
    | inr (not_zsh, not_bash) ↦ ground (arith, not_zsh, not_bash)
  ]

  write_next-visible :
      (bg : String) (total i : ℕ) (c : Char) (rest : Runes) (w : Writer)
      → is b'<' c ≡ false
      → w.is_invisible ≡ false
      → w.is_hyperlink ≡ false
      → write_next t bg total i c rest w
        ≡ (0, record w { builder = w.builder ++ escaped t c; length = w.length + t.rune_width c })
  unfolding write_next write emit
  write_next-visible bg total i c rest w q v h =
      simp (write_next, write_token, no_token (c ∷ rest) w, q, write, v, h)

  write_runes-visible :
      (bg : String) (total i : ℕ) (s : Runes) (w : Writer)
      → Lacks b'<' s
      → w.is_invisible ≡ false
      → w.is_hyperlink ≡ false
      → (write_runes t bg total 0 i s w).1 ≡ shown s w
  unfolding write_runes replace
  write_runes-visible bg total i [] w q v h =
      let texts : w.builder ≡ w.builder ++ [] = sym (append-nil w.builder) in
      let counts : w.length ≡ w.length + 0 = omega arith in
      λ k. record w { builder = texts k; length = counts k }
  write_runes-visible bg total i (c ∷ s) w q v h =
      let texts : (w.builder ++ escaped t c) ++ replace (escaped t) s
          ≡ w.builder ++ replace (escaped t) (c ∷ s) =
        append_assoc w.builder (escaped t c) (replace (escaped t) s) in
      let counts : (w.length + t.rune_width c) + width t.rune_width s
          ≡ w.length + width t.rune_width (c ∷ s) =
        omega arith in
      let next = record w {
        builder = w.builder ++ escaped t c;
        length = w.length + t.rune_width c;
      } in
      ap (λ r. (write_runes t bg total r.0 (suc i) s r.1).1)
        (write_next-visible bg total i c s w q.0 v h)
      ∙ write_runes-visible bg total (suc i) s next q.1 v h
      ∙ (λ k. record w { builder = texts k; length = counts k })

  no_anchor : (s : Runes) → Lacks b'<' s → find_anchor s ≡ none
  unfolding find_anchor
  no_anchor [] q = refl
  no_anchor (c ∷ s) q = rw (q.0) refl

  text_behind_plain : (s : Runes) → Lacks b'<' s → text_behind t s ≡ s
  unfolding text_behind
  text_behind_plain s q = rw (no_anchor s q) refl

  -- Where no clock tokens are kept, a text without `<` is written as it is, rune by rune, with what
  -- the shell wants for a rune in its place, between the colours in front of it and the reset behind it;
  -- its length grows by the widths of its runes. The colours must not be invisible, and no hyperlink
  -- be open.
  pub write_text_verbatim :
      (background foreground : String) (txt : Runes) (w : Writer)
      → is_empty txt ≡ false
      → Lacks b'<' txt
      → (start_text t background foreground txt w).is_invisible ≡ false
      → (start_text t background foreground txt w).is_hyperlink ≡ false
      → write_text t background foreground txt w
        ≡ end_text t (shown txt (start_text t background foreground txt w))
  unfolding write_text
  write_text_verbatim background foreground txt w e q v h =
      let started = start_text t background foreground txt w in
      let looped = write_runes-visible background (length txt) 0 txt started q v h in
      let loop : write_text t background foreground txt w
          ≡ end_text t
              (write_runes t background (length (text_behind t txt)) 0 0 (text_behind t txt)
                started).1 =
        rw (write_text, e) refl in
      loop
      ∙ ap (λ r. end_text t (write_runes t background (length r) 0 0 r started).1)
          (text_behind_plain txt q)
      ∙ ap (end_text t) looped
