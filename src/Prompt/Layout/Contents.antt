-- ===== src/Prompt/Layout/Contents.antt =====
-- Which segments the blocks of src/prompt/layout.go draw.
use prompto.Prelude.{
  ℕ, suc, ◌+◌, ◌≡◌, refl, ap, ◌∙◌, Bool, true, false, not, ◌&&◌, List, [], ◌∷◌, ◌++◌, Option, none,
  some, String, if◌then◌else◌, eqb, leb, length,
}
use prompto.Config.Segment.{Segment}
use prompto.Prompt.Layout.{
  BlockType, prompt, rprompt, BlockAlignment, left, right, PromptLayout, LayoutConfig, Block,
  layout_block, right_block, line_blocks, compose_from, compose_layout_blocks, block_segments,
}

-- The segments of the blocks on one side, less the empty blocks that are only there to be drawn.
abbrev pub on_side : BlockAlignment → Block → Bool
on_side side b = not b.force && elim b.alignment [
  | left ↦ elim side [ left ↦ true | right ↦ false ]
  | right ↦ elim side [ left ↦ false | right ↦ true ]
]

abbrev pub segments_on : BlockAlignment → List Block → List (List Segment)
segments_on side [] = []
segments_on side (b ∷ bs) =
    let rest = segments_on side bs in if on_side side b then b.segments ∷ rest else rest

segments_on-append :
    (side : BlockAlignment) (xs ys : List Block)
    → segments_on side (xs ++ ys) ≡ segments_on side xs ++ segments_on side ys
segments_on-append side [] ys = refl
segments_on-append side (x ∷ xs) ys = by_test (on_side side x) _ _ _ (segments_on-append side xs ys)
  where
    by_test :
        (b : Bool) (us vs ws : List (List Segment))
        → us ≡ vs ++ ws
        → (if b then x.segments ∷ us else us) ≡ (if b then x.segments ∷ vs else vs) ++ ws
    by_test true us vs ws e = ap (λ t. x.segments ∷ t) e
    by_test false us vs ws e = e

either_way :
    (side : BlockAlignment) (b : Bool) (xs ys : List Block) (k : List (List Segment))
    → segments_on side xs ≡ k
    → segments_on side ys ≡ k
    → segments_on side (if b then xs else ys) ≡ k
either_way side true xs ys k hx hy = hx
either_way side false xs ys k hx hy = hy

module _ (mirror_glyph : Bool → String → String) (c : LayoutConfig) where
  right_block_lem :
      (inline_right : Bool) (n m i : ℕ) (has_left : Bool) (r : PromptLayout)
      → (type : BlockType) × (newline : Bool) × (right_block mirror_glyph c inline_right n m i
            has_left r
          ≡ layout_block mirror_glyph c r type right newline)
  unfolding right_block
  right_block_lem inline_right n m i has_left r = by_test (inline_right && not (eqb (i + 1) m))
    where
      by_test :
          (b : Bool)
          → (type : BlockType) × (newline : Bool) × ((if b
                then layout_block mirror_glyph c r prompt right (not (eqb i 0) && leb n i)
                else layout_block mirror_glyph c r rprompt right false)
              ≡ layout_block mirror_glyph c r type right newline)
      by_test true = (prompt, not (eqb i 0) && leb n i, refl)
      by_test false = (rprompt, false, refl)

  -- What a line has on a side.
  abbrev pub line_on :
      BlockAlignment → Option PromptLayout → Option PromptLayout → List (List Segment)
  line_on left none r = []
  line_on left (some l) r = block_segments mirror_glyph c left l.segments ∷ []
  line_on right l none = []
  line_on right l (some r) = block_segments mirror_glyph c right r.segments ∷ []

  line_blocks-segments :
      (inline_right : Bool) (n m i : ℕ) (side : BlockAlignment) (l r : Option PromptLayout)
      → segments_on side (line_blocks mirror_glyph c inline_right n m i l r) ≡ line_on side l r
  unfolding line_blocks layout_block
  line_blocks-segments inline_right n m i left none none = refl
  line_blocks-segments inline_right n m i right none none = refl
  line_blocks-segments inline_right n m i left (some l) none = refl
  line_blocks-segments inline_right n m i right (some l) none = refl
  line_blocks-segments inline_right n m i left (some l) (some r) =
      let (type, newline, e) = right_block_lem inline_right n m i true r in rw e refl
  line_blocks-segments inline_right n m i right (some l) (some r) =
      let (type, newline, e) = right_block_lem inline_right n m i true r in rw e refl
  line_blocks-segments inline_right n m i left none (some r) =
      let (type, newline, e) = right_block_lem inline_right n m i false r in
      rw e (either_way left (inline_right && eqb (i + 1) m) _ _ _ refl refl)
  line_blocks-segments inline_right n m i right none (some r) =
      let (type, newline, e) = right_block_lem inline_right n m i false r in
      rw e (either_way right (inline_right && eqb (i + 1) m) _ _ _ refl refl)

  -- What a list of layouts has on a side.
  abbrev pub lines_on : BlockAlignment → List PromptLayout → List (List Segment)
  lines_on side [] = []
  lines_on side (l ∷ ls) = block_segments mirror_glyph c side l.segments ∷ lines_on side ls

  abbrev sided : BlockAlignment → List PromptLayout → List PromptLayout → List (List Segment)
  sided left ls rs = lines_on left ls
  sided right ls rs = lines_on right rs

  composed :
      (inline_right : Bool) (n m i : ℕ) (side : BlockAlignment) (l r : Option PromptLayout)
      (ls rs : List PromptLayout) (k : List (List Segment))
      → segments_on side (compose_from mirror_glyph c inline_right n m (suc i) ls rs) ≡ k
      → segments_on side (
          line_blocks mirror_glyph c inline_right n m i l r
          ++ compose_from mirror_glyph c inline_right n m (suc i) ls rs)
        ≡ line_on side l r ++ k
  composed inline_right n m i side l r ls rs k h =
      let later = compose_from mirror_glyph c inline_right n m (suc i) ls rs in
      segments_on-append side (line_blocks mirror_glyph c inline_right n m i l r) later
      ∙ ap (λ t. t ++ segments_on side later) (line_blocks-segments inline_right n m i side l r)
      ∙ ap (λ t. line_on side l r ++ t) h

  compose_from-segments :
      (inline_right : Bool) (n m i : ℕ) (side : BlockAlignment) (ls rs : List PromptLayout)
      → segments_on side (compose_from mirror_glyph c inline_right n m i ls rs) ≡ sided side ls rs
  unfolding compose_from
  compose_from-segments inline_right n m i left [] [] = refl
  compose_from-segments inline_right n m i right [] [] = refl
  compose_from-segments inline_right n m i left (l ∷ ls) [] =
      composed inline_right n m i left (some l) none ls [] _
        (compose_from-segments inline_right n m (suc i) left ls [])
  compose_from-segments inline_right n m i right (l ∷ ls) [] =
      composed inline_right n m i right (some l) none ls [] _
        (compose_from-segments inline_right n m (suc i) right ls [])
  compose_from-segments inline_right n m i left [] (r ∷ rs) =
      composed inline_right n m i left none (some r) [] rs _
        (compose_from-segments inline_right n m (suc i) left [] rs)
  compose_from-segments inline_right n m i right [] (r ∷ rs) =
      composed inline_right n m i right none (some r) [] rs _
        (compose_from-segments inline_right n m (suc i) right [] rs)
  compose_from-segments inline_right n m i left (l ∷ ls) (r ∷ rs) =
      composed inline_right n m i left (some l) (some r) ls rs _
        (compose_from-segments inline_right n m (suc i) left ls rs)
  compose_from-segments inline_right n m i right (l ∷ ls) (r ∷ rs) =
      composed inline_right n m i right (some l) (some r) ls rs _
        (compose_from-segments inline_right n m (suc i) right ls rs)

  -- The blocks that are composed of left and right lines, whether the right ones are inlined or not,
  -- draw on each side exactly the segments that are defined of the lines of that side, a block for
  -- each line and in their order; the only other blocks are empty ones that force a line.
  pub compose_layout_blocks-segments :
      (ls rs : List PromptLayout) (inline_right : Bool)
      → (segments_on left (compose_layout_blocks mirror_glyph c ls rs inline_right)
          ≡ lines_on left ls)
        × (segments_on right (compose_layout_blocks mirror_glyph c ls rs inline_right)
            ≡ lines_on right rs)
  unfolding compose_layout_blocks
  compose_layout_blocks-segments ls rs inline_right = (
    compose_from-segments inline_right (length ls) (length rs) 0 left ls rs,
    compose_from-segments inline_right (length ls) (length rs) 0 right ls rs,
  )
