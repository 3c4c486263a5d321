-- ===== src/Terminal/Anchor/Reading.antt =====
-- What the expression `AnchorRegex` of src/terminal/writer.go finds.
use Prim.Native.Char.{code}
use mathlib.Core.List.{append_assoc}
use text.Mathlib.TextEquality.{Char-path}
use prompto.Prelude.{
  eqb_iff, [], ◌∷◌, ◌++◌, none, some, ◌≡◌, refl, ap, sym, ◌∙◌, inl, inr, Bool-cases, Option-cases,
}
use prompto.Prelude.Runes.{Runes, is, cut-append, Lacks, Lacks-append}
use prompto.Terminal.Anchor.{Match, find_anchor, anchor_body, of_body}

unwrap : {A : Type 0} (a b : A) → some a ≡ some b → a ≡ b
unwrap a b h = cc

-- A body is followed by `>`.
anchor_body-prefix :
    (s body : Runes) → anchor_body s ≡ some body → (rest : Runes) × (s ≡ body ++ ">" ∷ rest)
unfolding anchor_body
anchor_body-prefix [] body h = cc
anchor_body-prefix (c ∷ s) body h = elim (Bool-cases (is b'>' c)) [
  | inl closing ↦
      let step : anchor_body (c ∷ s) ≡ some [] = rw (anchor_body, closing) refl in
      (
        s,
        rw
            (
              sym (unwrap [] body (sym step ∙ h)),
              Char-path c ">" ((eqb_iff (code c) b'>').0 closing),
            )
            refl,
      )
  | inr inner ↦ elim (Bool-cases (is b'<' c)) [
    | inl opening ↦
        let step : anchor_body (c ∷ s) ≡ none = rw (anchor_body, inner, opening) refl in cc
    | inr plain ↦ elim (Option-cases (anchor_body s)) [
      | inl missing ↦
          let step : anchor_body (c ∷ s) ≡ none = rw (anchor_body, inner, plain, missing) refl in cc
      | inr (later, found) ↦
          let step : anchor_body (c ∷ s) ≡ some (c ∷ later) =
            rw (anchor_body, inner, plain, found) refl in
          let (rest, e) = anchor_body-prefix s later found in
          (rest, rw (sym (unwrap (c ∷ later) body (sym step ∙ h))) (ap (◌∷◌ c) e))
    ]
  ]
]

-- A match is a prefix of the text.
pub find_anchor-prefix :
    (s : Runes) (m : Match) → find_anchor s ≡ some m → (rest : Runes) × (s ≡ m.anchor ++ rest)
unfolding find_anchor
find_anchor-prefix [] m h = cc
find_anchor-prefix (c ∷ s) m h = elim (Bool-cases (is b'<' c)) [
  | inr other ↦ let step : find_anchor (c ∷ s) ≡ none = rw (find_anchor, other) refl in cc
  | inl opening ↦ elim (Option-cases (anchor_body s)) [
    | inl missing ↦
        let step : find_anchor (c ∷ s) ≡ none = rw (find_anchor, opening, missing) refl in cc
    | inr (body, found) ↦
        let step : find_anchor (c ∷ s) ≡ of_body (some body) =
          rw (find_anchor, opening, found) refl in
        let (rest, e) = anchor_body-prefix s body found in
        let same = unwrap _ m (sym step ∙ h) in
        (
          rest,
          rw (sym (ap (λ x. x.anchor) same), Char-path c "<" ((eqb_iff (code c) b'<').0 opening))
              (ap (◌∷◌ "<") (e ∙ sym (append_assoc body (">" ∷ []) rest))),
        )
  ]
]

anchor_body-append :
    (body rest : Runes)
    → Lacks b'<' body
    → Lacks b'>' body
    → anchor_body (body ++ ">" ∷ rest) ≡ some body
unfolding anchor_body
anchor_body-append [] rest h k = refl
anchor_body-append (c ∷ body) rest h k =
    rw (anchor_body, k.0, h.0, anchor_body-append body rest h.1 k.1) refl

-- An anchor that is written in front of a text is found there, with its two colours: the foreground
-- holds no comma, and neither colour holds `<` or `>`.
pub find_anchor-written :
    (fg bg rest : Runes)
    → Lacks b',' fg
    → Lacks b'<' fg
    → Lacks b'>' fg
    → Lacks b'<' bg
    → Lacks b'>' bg
    → find_anchor ("<" ∷ fg ++ "," ∷ bg ++ ">" ∷ rest)
      ≡ some (record { anchor = "<" ∷ fg ++ "," ∷ bg ++ ">" ∷ []; fg = fg; bg = bg })
unfolding find_anchor
find_anchor-written fg bg rest c f g h k =
    let body = fg ++ "," ∷ bg in
    rw
      (anchor_body-append body rest (Lacks-append b'<' fg ("," ∷ bg) f (refl, h))
        (Lacks-append b'>' fg ("," ∷ bg) g (refl, k)))
      (rw (cut-append "," fg bg c) refl)
