-- ===== src/Prompt/Engine/RightEdge.antt =====
-- Where a right-aligned block ends, by `canWriteRightBlock` of src/prompt/engine.go.
use prompto.Prelude.{
  ℕ, ◌+◌, ◌%◌, ◌≤◌, ◌<◌, ◌≡◌, ◌≢◌, ◌∙◌, ap, sym, ◌⊎◌, inl, inr, Bool, true, false, some, refl,
  arith, eqb, Bool-cases, ◌&&◌,
}
use prompto.Prelude.Int.{ℤ, pos, negsuc, ◌-ℤ◌}
use prompto.Prelude.Runes.{is_empty}
use prompto.Prompt.Engine.{Host, Engine, can_write_right_block, fit, breathing_room}

-- The space ends a line that already holds `used` cells, or the last of the lines that they fill.
abbrev pub Lands : ℕ → ℕ → ℕ → ℕ → Type 0
Lands width used length n =
    ((used ≤ width) × (used + n + length ≡ width))
    ⊎ ((width < used) × (used % width + n + length ≡ width))

fit-Lands :
    (width used length : ℕ) (rprompt : Bool) (space : ℤ)
    → 0 < width
    → fit width used length rprompt ≡ (space, true)
    → (n : ℕ) × (space ≡ pos n) × (breathing_room rprompt ≤ n) × Lands width used length n
unfolding fit ◌-ℤ◌
fit-Lands width used length rprompt (pos n) p h =
    (n, refl, ground (arith, fit, ◌-ℤ◌), ground (arith, fit, ◌-ℤ◌))
fit-Lands width used length rprompt (negsuc n) p h = ground (arith, fit, ◌-ℤ◌)

no_room : false ≢ true
no_room h = cc

-- If a right-aligned block of that length can be written in a terminal of a known width, then the
-- space in front of it has at least five cells, thirty for a right prompt, and it makes the block end
-- at the right edge: of the line that is being written, or of the last line that its text has filled.
pub can_write_right_block-Lands :
    (host : Host) (e : Engine) (width length : ℕ) (rprompt : Bool) (space : ℤ)
    → host.terminal_width ≡ some width
    → can_write_right_block host e length rprompt ≡ (space, true)
    → (n : ℕ) × (space ≡ pos n)
      × (breathing_room rprompt ≤ n)
      × Lands width e.current_line_length length n
unfolding can_write_right_block
can_write_right_block-Lands host e width length rprompt space w h =
    elim (Bool-cases (rprompt && is_empty e.rprompt)) [
      | inl missing ↦
          let step : can_write_right_block host e length rprompt ≡ (pos 0, false) =
            rw (can_write_right_block, missing) refl in
          absurd (no_room (ap (λ r. r.1) (sym step ∙ h)))
      | inr present ↦ elim (Bool-cases (eqb width 0)) [
        | inl unknown ↦
            let step : can_write_right_block host e length rprompt ≡ (pos 0, false) =
              rw (can_write_right_block, present, w, unknown) refl in
            absurd (no_room (ap (λ r. r.1) (sym step ∙ h)))
        | inr known ↦
            let step : can_write_right_block host e length rprompt
                ≡ fit width e.current_line_length length rprompt =
              rw (can_write_right_block, present, w, known) refl in
            fit-Lands width e.current_line_length length rprompt space (ground arith) (sym step ∙ h)
      ]
    ]
