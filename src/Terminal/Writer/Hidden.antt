-- ===== src/Terminal/Writer/Hidden.antt =====
-- What `Write` of src/terminal/writer.go does with the text behind an override that is invisible.
use Prim.Native.Char.{Char}
use prompto.Prelude.{
  ℕ, zero, suc, ◌-◌, Bool, true, false, [], ◌∷◌, ◌++◌, none, String, ◌≡◌, refl, ap, ◌∙◌, inl, inr,
  arith, Option-cases, if◌then◌else◌,
}
use prompto.Prelude.Runes.{Runes, runes, is, Lacks, cut, behind}
use prompto.Terminal.Anchor.{find_anchor, anchor_body}
use prompto.Terminal.Output.{
  Terminal, Writer, write, write_raw, write_all_raw, shell_clock_token_end, clock_token_behind,
  write_escaped_ansi_string, emit,
}
use prompto.Terminal.Coloring.{
  end_color_override, restore_previous, restore_own, drop_last, set_transparent,
  write_anchor_override,
}
use prompto.Terminal.Writer.Bounds.{end_color_override_position}
use prompto.Terminal.Writer.{write_runes, write_next, write_token, write_matched, write_anchor}

module _ (t : Terminal) where
  write_all_raw-hidden : (s : Runes) (w : Writer) → w.is_invisible ≡ true → write_all_raw t s w ≡ w
  unfolding write_all_raw write_raw
  write_all_raw-hidden [] w h = refl
  write_all_raw-hidden (c ∷ s) w h =
      let same : write_raw t c w ≡ w = rw (write_raw, h) refl in
      rw same (write_all_raw-hidden s w h)

  write_next-hidden :
      (bg : String) (total i : ℕ) (c : Char) (rest : Runes) (w : Writer)
      → is b'<' c ≡ false
      → w.is_invisible ≡ true
      → (write_next t bg total i c rest w).1 ≡ w
  unfolding write_next write
  write_next-hidden bg total i c rest w q h =
      elim (Option-cases (shell_clock_token_end t (c ∷ rest) w)) [
        | inl absent ↦ rw (write_next, write_token, absent, q, write, h) refl
        | inr (j, token) ↦ rw (write_next, write_token, token) (write_all_raw-hidden _ w h)
      ]

  -- Invisible text changes nothing.
  pub write_runes-hidden :
      (bg : String) (total skip i : ℕ) (s : Runes) (w : Writer)
      → Lacks b'<' s
      → w.is_invisible ≡ true
      → (write_runes t bg total skip i s w).1 ≡ w
  unfolding write_runes
  write_runes-hidden bg total skip i [] w q h = refl
  write_runes-hidden bg total (suc skip) i (c ∷ s) w q h =
      write_runes-hidden bg total skip (suc i) s w q.1 h
  write_runes-hidden bg total zero i (c ∷ s) w q h =
      let skip = (write_next t bg total i c s w).0 in
      ap (λ x. (write_runes t bg total skip (suc i) s x).1)
        (write_next-hidden bg total i c s w q.0 h)
      ∙ write_runes-hidden bg total skip (suc i) s w q.1 h

  abbrev IsHidden : ℕ → Writer → Type 0
  IsHidden n w = (w.is_invisible ≡ true) × (w.length ≡ n)

  if-IsHidden :
      (n : ℕ) (x : Bool) (a b : Writer)
      → IsHidden n a
      → IsHidden n b
      → IsHidden n (if x then a else b)
  if-IsHidden n true a b h k = h
  if-IsHidden n false a b h k = k

  if_second :
      (n : ℕ) (x : Bool) (a b : ℕ × Writer)
      → IsHidden n a.1
      → IsHidden n b.1
      → IsHidden n (if x then a else b).1
  if_second n true a b h k = h
  if_second n false a b h k = k

  drop_last-IsHidden : (n : ℕ) (w : Writer) → IsHidden n w → IsHidden n (drop_last w)
  unfolding drop_last
  drop_last-IsHidden n w h = h

  set_transparent-IsHidden :
      (n : ℕ) (q : Bool) (w : Writer) → IsHidden n w → IsHidden n (set_transparent q w)
  unfolding set_transparent
  set_transparent-IsHidden n q w h = h

  emit-IsHidden : (n : ℕ) (x : Runes) (w : Writer) → IsHidden n w → IsHidden n (emit x w)
  unfolding emit
  emit-IsHidden n x w h = h

  sequence-IsHidden :
      (n : ℕ) (x : Runes) (w : Writer) → IsHidden n w → IsHidden n (write_escaped_ansi_string t x w)
  unfolding write_escaped_ansi_string
  sequence-IsHidden n x w h = search (if-IsHidden, emit-IsHidden, h)

  ruleset hidden_rules =
      (if-IsHidden, drop_last-IsHidden, set_transparent-IsHidden, sequence-IsHidden)

  restore_previous-IsHidden :
      (n : ℕ) (bg fg : String) (w : Writer) → IsHidden n w → IsHidden n (restore_previous t bg fg w)
  unfolding restore_previous
  restore_previous-IsHidden n bg fg w h = search hidden_rules depth 12 fits 3000

  restore_own-IsHidden : (n : ℕ) (w : Writer) → IsHidden n w → IsHidden n (restore_own t w)
  unfolding restore_own
  restore_own-IsHidden n w h = search hidden_rules depth 12 fits 3000

  -- The end of an override makes nothing visible again.
  end_color_override-IsHidden :
      (n total i : ℕ) (w : Writer) → IsHidden n w → IsHidden n (end_color_override t total i w).1
  unfolding end_color_override
  end_color_override-IsHidden n total i w h =
      search (if_second, hidden_rules, restore_previous-IsHidden, restore_own-IsHidden)

  no_token : (s : Runes) (w : Writer) → shell_clock_token_end t ("<" ∷ s) w ≡ none
  unfolding shell_clock_token_end clock_token_behind behind
  no_token s w = ground arith

  reset_next :
      (bg : String) (total i : ℕ) (s : Runes) (w : Writer)
      → write_next t bg total i "<" ("/" ∷ ">" ∷ s) w
        ≡ ((end_color_override t total i w).0 - i, (end_color_override t total i w).1)
  unfolding write_next write_token find_anchor anchor_body cut write_matched write_anchor
      write_anchor_override
  reset_next bg total i s w = rw (write_next, no_token ("/" ∷ ">" ∷ s) w) refl

  -- At the anchor `</>` the loop ends an override, and goes on behind it.
  end_anchor :
      (bg : String) (total i : ℕ) (s : Runes) (w : Writer)
      → write_runes t bg total 0 i (runes "</>" ++ s) w
        ≡ write_runes t bg total 2 (suc i) ("/" ∷ ">" ∷ s) (end_color_override t total i w).1
  unfolding write_runes
  end_anchor bg total i s w =
      let next = write_next t bg total i "<" ("/" ∷ ">" ∷ s) w in
      let ended = end_color_override t total i w in
      let jump : ended.0 - i ≡ 2 = omega (arith, end_color_override_position t total i w) in
      ap (λ r. write_runes t bg total r.0 (suc i) ("/" ∷ ">" ∷ s) r.1) (reset_next bg total i s w)
      ∙ ap (λ k. write_runes t bg total k (suc i) ("/" ∷ ">" ∷ s) ended.1) jump

  -- Text that follows the end of an invisible override, up to the next `<`, is as invisible as the
  -- override: the loop writes nothing for it, and its length stays what it was.
  pub override_end-hidden :
      (bg : String) (total i : ℕ) (s : Runes) (w : Writer)
      → Lacks b'<' s
      → w.is_invisible ≡ true
      → ((write_runes t bg total 0 i (runes "</>" ++ s) w).1 ≡ (end_color_override t total i w).1)
        × ((write_runes t bg total 0 i (runes "</>" ++ s) w).1.length ≡ w.length)
  override_end-hidden bg total i s w q h =
      let ended = (end_color_override t total i w).1 in
      let (hidden, counted) = end_color_override-IsHidden w.length total i w (h, refl) in
      let same =
        ap (λ r. r.1) (end_anchor bg total i s w)
        ∙ write_runes-hidden bg total 2 (suc i) ("/" ∷ ">" ∷ s) ended (refl, (refl, q)) hidden in
      (same, ap (λ x. x.length) same ∙ counted)
