-- ===== src/Prompt/Engine/Filling.antt =====
-- What `shouldFill` of src/prompt/engine.go puts in front of a right-aligned block.
use Prim.Native.Char.{Char}
use native.Mathlib.Nat.{mod-add-div, mod-add-div'}
use prompto.Prelude.{
  ℕ, zero, suc, ◌+◌, ◌*◌, ◌/◌, ◌%◌, ◌<◌, ◌≡◌, ◌⊎◌, inl, inr, true, false, some, refl, sym, ap,
  subst, ◌∙◌, arith, String, [], ◌++◌, eqb, ◌==◌, string_comparable,
}
use prompto.Prelude.Int.{pos, negsuc}
use prompto.Prelude.Outcome.{done, panic}
use prompto.Prelude.Runes.{Runes, runes}
use prompto.Terminal.Writer.{write_text, string}
use prompto.Terminal.Modes.{in_mode}
use prompto.Terminal.Modes.Widths.{width, width-append, IsLinkless, IsMeasured}
use prompto.Terminal.Modes.Counting.{write_text-IsMeasured}
use prompto.Prompt.Engine.{
  Host, Engine, should_fill, repeat_filler, write_filler, repeat, joined, negated, repeat_runes,
}

width-repeat_runes : (f : Char → ℕ) (n : ℕ) (s : Runes) → width f (repeat_runes n s) ≡ n * width f s
unfolding repeat_runes
width-repeat_runes f zero s = omega arith
width-repeat_runes f (suc n) s =
    width-append f s (repeat_runes n s) ∙ omega (arith, width-repeat_runes f n s)

repeat-panic :
    (q r : ℕ) (s u : Runes) (e : Engine)
    → 0 < q + r
    → joined e (repeat s (negated q)) (repeat u (negated r)) ≡ panic
unfolding repeat
repeat-panic zero zero s u e h = absurd (omega arith)
repeat-panic zero (suc r) s u e h = refl
repeat-panic (suc q) r s u e h = refl

parts_positive : (n k : ℕ) → 0 < suc n / suc k + suc n % suc k
parts_positive n k = elim (zero_cases (suc n / suc k)) [
  | inl none_fit ↦ omega (arith, mod-add-div (suc n) (suc k), ap (λ q. suc k * q) none_fit)
  | inr some_fit ↦ omega (arith, some_fit)
]
  where
    zero_cases : (q : ℕ) → (q ≡ 0) ⊎ (0 < q)
    zero_cases q = ground arith

has_length : (length k : ℕ) → length ≡ suc k → eqb length 0 ≡ false
has_length length k h = ground arith

repeat_filler-panic :
    (host : Host) (s : Runes) (length n k : ℕ) (e : Engine)
    → length ≡ suc k
    → repeat_filler host (s, length, e) (negsuc n) ≡ panic
unfolding repeat_filler
repeat_filler-panic host s length n k e h =
    rw (repeat_filler, has_length length k h)
      (rw h (repeat-panic (suc n / suc k) (suc n % suc k) s (runes " ") e (parts_positive n k)))

repeat_filler-width :
    (host : Host) (f : Char → ℕ) (s : Runes) (length n k : ℕ) (e : Engine)
    → length ≡ suc k
    → length ≡ width f s
    → f " " ≡ 1
    → (filled : Runes) × (after : Engine) × (repeat_filler host (s, length, e) (pos n)
        ≡ done (some filled, after))
      × (width f filled ≡ n)
unfolding repeat_filler repeat
repeat_filler-width host f s length n k e h m one = (
  repeat_runes (n / length) s ++ repeat_runes (n % length) (runes " "),
  e,
  rw (repeat_filler, has_length length k h) refl,
  width-append f (repeat_runes (n / length) s) (repeat_runes (n % length) (runes " "))
      ∙ cells (width-repeat_runes f (n / length) s) (width-repeat_runes f (n % length) (runes " ")),
)
  where
    cells :
        width f (repeat_runes (n / length) s) ≡ n / length * width f s
        → width f (repeat_runes (n % length) (runes " ")) ≡ n % length * width f (runes " ")
        → width f (repeat_runes (n / length) s) + width f (repeat_runes (n % length) (runes " "))
          ≡ n
    cells a b =
        let single : width f (runes " ") ≡ 1 = omega (arith, one) in
        omega (
          arith,
          a,
          b,
          mod-add-div' n length,
          ap (λ x. n / length * x) m,
          ap (λ x. n % length * x) single,
        )

-- In a plain terminal a filler whose text has a length, and no hyperlink anchors, fills a padding of
-- `n` cells exactly: repetitions of it and spaces, which are one cell wide, are `n` wide together.
pub should_fill-width :
    (host : Host) (e : Engine) (filler : String) (txt : Runes) (n k : ℕ)
    → host.terminal.plain ≡ true
    → host.terminal.rune_width " " ≡ 1
    → (filler == "") ≡ false
    → host.render_filler filler (pos n) ≡ some txt
    → IsLinkless txt
    → e.writer.builder ≡ []
    → e.writer.length ≡ 0
    → e.writer.is_hyperlink ≡ false
    → (write_text host.terminal "" "" txt e.writer).length ≡ suc k
    → (filled : Runes) × (after : Engine) × (should_fill host filler (pos n) e
        ≡ done (some filled, after))
      × (width host.terminal.rune_width filled ≡ n)
unfolding should_fill write_filler repeat_filler string repeat
should_fill-width host e filler txt n k plain space nonempty rendered q b l h len =
    let t = host.terminal in
    let written = write_text t "" "" txt e.writer in
    let is_plain = sym plain in
    let same : in_mode true t ≡ t = λ i. record t { plain = is_plain i } in
    let measured : IsMeasured t written =
      subst (λ u. IsMeasured t (write_text u "" "" txt e.writer)) same
        (write_text-IsMeasured t "" "" txt e.writer q (l ∙ ap (width t.rune_width) (sym b), h)) in
    rw (should_fill, nonempty, rendered)
      (repeat_filler-width host t.rune_width written.builder written.length n k _ len measured.0
        space)

-- A negative padding makes a filler with a length panic.
pub should_fill-panic :
    (host : Host) (e : Engine) (filler : String) (txt : Runes) (n k : ℕ)
    → (filler == "") ≡ false
    → host.render_filler filler (negsuc n) ≡ some txt
    → (write_text host.terminal "" "" txt e.writer).length ≡ suc k
    → should_fill host filler (negsuc n) e ≡ panic
unfolding should_fill write_filler repeat_filler string repeat
should_fill-panic host e filler txt n k nonempty rendered len =
    rw (should_fill, nonempty, rendered)
      (repeat_filler-panic host (write_text host.terminal "" "" txt e.writer).builder
        (write_text host.terminal "" "" txt e.writer).length n k _ len)
