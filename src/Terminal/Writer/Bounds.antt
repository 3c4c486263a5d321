-- ===== src/Terminal/Writer/Bounds.antt =====
-- How far the loop of `Write` in src/terminal/writer.go moves its index.
use Prim.Native.Char.{Char}
use text.Mathlib.TextEquality.{eq_iff}
use prompto.Prelude.{
  ℕ, zero, suc, ◌+◌, ◌-◌, ◌≤◌, ◌<◌, Bool, true, false, [], ◌∷◌, none, some, String, ◌≡◌, refl, ap,
  sym, ◌∙◌, inl, inr, arith, length, length-append, Bool-cases, Option-cases, if◌then◌else◌, ◌==◌,
  string_comparable,
}
use prompto.Prelude.Runes.{Runes, runes, is, behind, text_of}
use prompto.Terminal.Anchor.{
  empty_anchor, hyper_link_end, hyper_link_text_end, hyper_link_text, hyper_link_start, Match,
  find_anchor, reset_anchor_end, known_styles,
}
use prompto.Terminal.Anchor.Reading.{find_anchor-prefix}
use prompto.Terminal.Output.{
  Terminal, Writer, shell_clock_token_end, clock_token_behind, closing_brace,
}
use prompto.Terminal.Coloring.{end_color_override, style_sequence, write_anchor_override}
use prompto.Terminal.Writer.{write_anchor, write_matched, write_next, write_token, write_runes}

unwrap : {A : Type 0} (a b : A) → some a ≡ some b → a ≡ b
unwrap a b h = cc

if_first : (x : Bool) (a b : ℕ × Writer) (n : ℕ) → a.0 ≡ n → b.0 ≡ n → (if x then a else b).0 ≡ n
if_first true a b n h k = h
if_first false a b n h k = k

runes-text_of : (s : Runes) → runes (text_of s) ≡ s
runes-text_of [] = refl
runes-text_of (c ∷ s) = ap (◌∷◌ c) (runes-text_of s)

anchor_length : (s : Runes) (m : Match) → find_anchor s ≡ some m → length m.anchor ≤ length s
anchor_length s m h =
    let (rest, e) = find_anchor-prefix s m h in
    omega (arith, ap length e, length-append m.anchor rest)

closing_brace-lt : (i : ℕ) (s : Runes) (j : ℕ) → closing_brace i s ≡ some j → j < i + length s
unfolding closing_brace
closing_brace-lt i [] j h = cc
closing_brace-lt i (c ∷ s) j h = ground (arith, closing_brace-lt (suc i) s j)

behind-length : (p s rest : Runes) → behind p s ≡ some rest → length s ≡ length p + length rest
unfolding behind
behind-length [] s rest h = omega (arith, ap length (unwrap s rest h))
behind-length (c ∷ p) [] rest h = cc
behind-length (c ∷ p) (d ∷ s) rest h = ground (arith, behind-length p s rest)

clock_token-lt :
    (p s : Runes) (j : ℕ) → length p ≡ 3 → clock_token_behind (behind p s) ≡ some j → j < length s
unfolding clock_token_behind
clock_token-lt p s j l h = elim (Option-cases (behind p s)) [
  | inl missing ↦ let step : clock_token_behind (behind p s) ≡ none = rw missing refl in cc
  | inr (rest, found) ↦
      let step : clock_token_behind (behind p s) ≡ closing_brace 3 rest = rw found refl in
      omega (arith, behind-length p s rest found, closing_brace-lt 3 rest j (sym step ∙ h))
]

module _ (t : Terminal) where
  clock_bound :
      (s : Runes) (w : Writer) (j : ℕ) → shell_clock_token_end t s w ≡ some j → j < length s
  unfolding shell_clock_token_end clock_token_behind
  clock_bound s w j h =
      ground (arith, clock_token-lt (runes "%D{") s j refl, clock_token-lt (runes "\\D{") s j refl)

  pub end_color_override_position :
      (total i : ℕ) (w : Writer) → (end_color_override t total i w).0 ≡ i + 2
  unfolding end_color_override
  end_color_override_position total i w = search if_first

  write_anchor_override_jump :
      (m : Match) (bg : String) (total i : ℕ) (w : Writer)
      → (write_anchor_override t m bg total i w).0 - i ≡ length m.anchor - 1
  unfolding write_anchor_override
  write_anchor_override_jump m bg total i w =
      elim (Bool-cases (text_of m.anchor == reset_anchor_end)) [
        | inl reset ↦
            let same = (eq_iff (text_of m.anchor) reset_anchor_end).0 reset in
            let anchor = sym (runes-text_of m.anchor) ∙ ap runes same in
            rw (write_anchor_override, reset)
              (omega (arith, end_color_override_position total i w, ap length anchor))
        | inr other ↦ elim (Option-cases (style_sequence (text_of m.anchor) known_styles)) [
          | inl color ↦ rw (write_anchor_override, other, color) (omega arith)
          | inr (sequence, style) ↦ rw (write_anchor_override, other, style) (omega arith)
        ]
      ]

  module _ (bg : String) (total : ℕ) where
    -- An anchor moves the index by its own runes.
    write_anchor_jump :
        (m : Match) (i : ℕ) (w : Writer) → (write_anchor t bg total m i w).0 ≡ length m.anchor - 1
    unfolding write_anchor write_anchor_override
    write_anchor_jump m i w = elim (Bool-cases (text_of m.anchor == hyper_link_start)) [
      | inl h ↦ rw (write_anchor, h) refl
      | inr a ↦ elim (Bool-cases (text_of m.anchor == hyper_link_text)) [
        | inl h ↦ rw (write_anchor, a, h) refl
        | inr b ↦ elim (Bool-cases (text_of m.anchor == hyper_link_text_end)) [
          | inl h ↦ rw (write_anchor, a, b, h) refl
          | inr c ↦ elim (Bool-cases (text_of m.anchor == hyper_link_end)) [
            | inl h ↦ rw (write_anchor, a, b, c, h) refl
            | inr d ↦
                rw (write_anchor, a, b, c, d)
                  (if_first (text_of m.anchor == empty_anchor) (length m.anchor - 1, w) _ _ refl
                    (write_anchor_override_jump m bg total i w))
          ]
        ]
      ]
    ]

    write_next_bound :
        (i : ℕ) (s : Char) (rest : Runes) (w : Writer)
        → (write_next t bg total i s rest w).0 ≤ length rest
    unfolding write_next
    write_next_bound i s rest w = elim (Option-cases (shell_clock_token_end t (s ∷ rest) w)) [
      | inr (j, token) ↦
          rw (write_next, write_token, token) (omega (arith, clock_bound (s ∷ rest) w j token))
      | inl absent ↦ elim (Bool-cases (is b'<' s)) [
        | inr other ↦ rw (write_next, write_token, absent, other) (omega arith)
        | inl bracket ↦ elim (Option-cases (find_anchor (s ∷ rest))) [
          | inl unmatched ↦
              rw (write_next, write_token, absent, bracket, write_matched, unmatched) (omega arith)
          | inr (m, matched) ↦
              rw (write_next, write_token, absent, bracket, write_matched, matched)
                (omega (arith, write_anchor_jump m i w, anchor_length (s ∷ rest) m matched))
        ]
      ]
    ]

    -- The index never moves past the last rune: whatever is still to be passed over, within the
    -- text, has been passed over when the text ends.
    pub write_runes_inside :
        (skip i : ℕ) (s : Runes) (w : Writer)
        → skip ≤ length s
        → (write_runes t bg total skip i s w).0 ≡ 0
    unfolding write_runes
    write_runes_inside skip i [] w h = omega arith
    write_runes_inside (suc skip) i (c ∷ s) w h = write_runes_inside skip (suc i) s w (omega arith)
    write_runes_inside zero i (c ∷ s) w h =
        let (skip, next) = write_next t bg total i c s w in
        write_runes_inside skip (suc i) s next (write_next_bound i c s w)
