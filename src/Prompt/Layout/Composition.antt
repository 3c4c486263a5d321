-- ===== src/Prompt/Layout/Composition.antt =====
-- Which blocks src/prompt/layout.go makes of the lines of a layout.
use prompto.Prelude.{
  leb, ℕ, suc, ◌+◌, ◌≡◌, refl, ap, ◌∙◌, Bool, true, false, not, ◌||◌, ◌&&◌, List, [], ◌∷◌, ◌++◌,
  Option, none, some, String, if◌then◌else◌, arith, eqb, length, count_p,
}
use prompto.Prompt.Layout.{
  prompt, rprompt, right, PromptLayout, LayoutConfig, Block, should_inline_right_layout,
  should_inline_primary_rprompt, layout_block, right_block, line_blocks, compose_from,
  compose_layout_blocks, layout_primary_blocks,
}

abbrev pub is_rprompt : Block → Bool
is_rprompt b = elim b.type [ prompt ↦ false | rprompt ↦ true ]

count_p-append :
    {A : Type 0} (p : A → Bool) (xs ys : List A)
    → count_p p (xs ++ ys) ≡ count_p p xs + count_p p ys
count_p-append p [] ys = omega arith
count_p-append p (x ∷ xs) ys = ground (arith, count_p-append p xs ys)

module _ (mirror_glyph : Bool → String → String) (c : LayoutConfig) where
  right_block_type :
      (inline_right : Bool) (n m i : ℕ) (has_left : Bool) (r : PromptLayout)
      → is_rprompt (right_block mirror_glyph c inline_right n m i has_left r)
        ≡ (not inline_right || eqb (i + 1) m)
  unfolding right_block layout_block
  right_block_type inline_right n m i has_left r = by_test inline_right (eqb (i + 1) m)
    where
      by_test :
          (a b : Bool)
          → is_rprompt (
              if a && not b
              then layout_block mirror_glyph c r prompt right (not (eqb i 0) && leb n i)
              else layout_block mirror_glyph c r rprompt right false)
            ≡ (not a || b)
      by_test true true = refl
      by_test true false = refl
      by_test false b = refl

  -- The right prompts of a line.
  line-count :
      (inline_right : Bool) (n m i : ℕ) (l : Option PromptLayout) (r : PromptLayout)
      → count_p is_rprompt (line_blocks mirror_glyph c inline_right n m i l (some r))
        ≡ (if not inline_right || eqb (i + 1) m then 1 else 0)
  unfolding line_blocks layout_block
  line-count inline_right n m i none r =
      count_if (inline_right && eqb (i + 1) m) _ _ refl refl
      ∙ ap (λ b. if b then 1 else 0) (right_block_type inline_right n m i false r)
    where
      count_if :
          {k : ℕ} (b : Bool) (xs ys : List Block)
          → count_p is_rprompt xs ≡ k
          → count_p is_rprompt ys ≡ k
          → count_p is_rprompt (if b then xs else ys) ≡ k
      count_if true xs ys hx hy = hx
      count_if false xs ys hx hy = hy
  line-count inline_right n m i (some l) r =
      ap (λ b. if b then 1 else 0) (right_block_type inline_right n m i true r)

  -- The right prompts that a layout has: all of its right lines, or the last one.
  abbrev right_prompts : Bool → List PromptLayout → ℕ
  right_prompts inline_right [] = 0
  right_prompts inline_right (r ∷ rs) = if inline_right then 1 else suc (length rs)

  last_line :
      (inline_right : Bool) (m i : ℕ) (rs : List PromptLayout)
      → m ≡ i + suc (length rs)
      → (if not inline_right || eqb (i + 1) m then 1 else 0) + right_prompts inline_right rs
        ≡ (if inline_right then 1 else suc (length rs))
  last_line true m i [] e = ground arith
  last_line true m i (r ∷ rs) e = ground arith
  last_line false m i [] e = ground arith
  last_line false m i (r ∷ rs) e = ground arith

  count-line :
      (inline_right : Bool) (n m i : ℕ) (l : Option PromptLayout) (r : PromptLayout)
      (rs : List PromptLayout) (later : List Block)
      → m ≡ i + suc (length rs)
      → count_p is_rprompt later ≡ right_prompts inline_right rs
      → count_p is_rprompt (line_blocks mirror_glyph c inline_right n m i l (some r) ++ later)
        ≡ right_prompts inline_right (r ∷ rs)
  count-line inline_right n m i l r rs later e h =
      count_p-append is_rprompt (line_blocks mirror_glyph c inline_right n m i l (some r)) later
      ∙ ap (λ k. k + count_p is_rprompt later) (line-count inline_right n m i l r)
      ∙ ap (λ k. (if not inline_right || eqb (i + 1) m then 1 else 0) + k) h
      ∙ last_line inline_right m i rs e

  -- Left lines alone have none.
  lefts-count :
      (inline_right : Bool) (n m i : ℕ) (ls : List PromptLayout)
      → count_p is_rprompt (compose_from mirror_glyph c inline_right n m i ls []) ≡ 0
  unfolding compose_from layout_block
  lefts-count inline_right n m i [] = refl
  lefts-count inline_right n m i (l ∷ ls) = lefts-count inline_right n m (suc i) ls

  compose_from-count :
      (inline_right : Bool) (n m i : ℕ) (ls rs : List PromptLayout)
      → m ≡ i + length rs
      → count_p is_rprompt (compose_from mirror_glyph c inline_right n m i ls rs)
        ≡ right_prompts inline_right rs
  unfolding compose_from layout_block
  compose_from-count inline_right n m i [] [] e = refl
  compose_from-count inline_right n m i (l ∷ ls) [] e = lefts-count inline_right n m (suc i) ls
  compose_from-count inline_right n m i [] (r ∷ rs) e =
      count-line inline_right n m i none r rs
        (compose_from mirror_glyph c inline_right n m (suc i) [] rs) e
        (compose_from-count inline_right n m (suc i) [] rs (omega arith))
  compose_from-count inline_right n m i (l ∷ ls) (r ∷ rs) e =
      count-line inline_right n m i (some l) r rs
        (compose_from mirror_glyph c inline_right n m (suc i) ls rs) e
        (compose_from-count inline_right n m (suc i) ls rs (omega arith))

-- The primary prompt of a layout has at most one right prompt: none, if the layout has no right lines,
-- and one otherwise, whatever the numbers of its left and right lines.
pub layout_primary_blocks-count :
    (mirror_glyph : Bool → String → String) (c : LayoutConfig)
    → count_p is_rprompt (layout_primary_blocks mirror_glyph (some c))
      ≡ (if eqb (length c.rprompt_lines) 0 then 0 else 1)
unfolding layout_primary_blocks compose_layout_blocks should_inline_primary_rprompt
    should_inline_right_layout
layout_primary_blocks-count mirror_glyph c =
    let inline_right =
      should_inline_right_layout (length c.prompt_lines) (length c.rprompt_lines) in
    compose_from-count mirror_glyph c inline_right (length c.prompt_lines) (length c.rprompt_lines)
      0 c.prompt_lines c.rprompt_lines (omega arith)
    ∙ one_right c.rprompt_lines
  where
    one_right :
        (rs : List PromptLayout)
        → right_prompts mirror_glyph c
            (should_inline_right_layout (length c.prompt_lines) (length rs))
            rs
          ≡ (if eqb (length rs) 0 then 0 else 1)
    one_right [] = ground arith
    one_right (r ∷ []) = ground arith
    one_right (r ∷ s ∷ rs) = ground arith
