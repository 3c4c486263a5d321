-- ===== src/Prompt/Layout.antt =====
-- src/prompt/layout.go: how the lines of a layout become the blocks of a prompt. `mirror_glyph` stands
-- for the table of mirrored glyphs of src/config/layout.go.
pub mod Composition
pub mod Contents
use prompto.Prelude.{
  ℕ, suc, ◌+◌, Bool, true, false, not, ◌||◌, ◌&&◌, List, [], ◌∷◌, ◌++◌, Option, none, some, String,
  if◌then◌else◌, string_comparable, ltb, leb, eqb, length,
}
use prompto.Prelude.Dict.{Dict, lookup}
use prompto.Config.Segment.{Segment, clone, mirror_separators}

pub data BlockType : Type 0 where
  prompt : BlockType
  rprompt : BlockType

pub data BlockAlignment : Type 0 where
  left : BlockAlignment
  right : BlockAlignment

pub record PromptLayout : Type 0 where
  pub segments : List String
  pub filler : String
  pub leading_glyph : String
  pub trailing_glyph : String

pub record LayoutConfig : Type 0 where
  pub prompt_lines : List PromptLayout
  pub rprompt_lines : List PromptLayout
  pub secondary_prompt : List PromptLayout
  pub transient_prompt : List PromptLayout
  pub transient_rprompt : List PromptLayout
  pub segments : Dict String Segment
  pub console : Bool

pub record Block : Type 0 where
  pub type : BlockType
  pub alignment : BlockAlignment
  pub filler : String
  pub leading_glyph : String
  pub trailing_glyph : String
  pub segments : List Segment
  pub newline : Bool
  pub force : Bool

abbrev is_empty {ℓ} : {A : Type ℓ} → List A → Bool
is_empty [] = true
is_empty (x ∷ xs) = false

-- The engine's layout is `none` where it is nil.
unfoldable pub has_layout_primary : Option LayoutConfig → Bool
has_layout_primary none = false
has_layout_primary (some c) = not (is_empty c.prompt_lines) || not (is_empty c.rprompt_lines)

unfoldable pub has_layout_secondary : Option LayoutConfig → Bool
has_layout_secondary none = false
has_layout_secondary (some c) = not (is_empty c.secondary_prompt)

unfoldable pub has_layout_transient : Option LayoutConfig → Bool
has_layout_transient none = false
has_layout_transient (some c) =
    not (is_empty c.transient_prompt) || not (is_empty c.transient_rprompt)

unfoldable pub should_inline_right_layout : ℕ → ℕ → Bool
should_inline_right_layout left_count right_count =
    if eqb right_count 0 then false else ltb 1 left_count || ltb 1 right_count

unfoldable pub should_inline_primary_rprompt : Option LayoutConfig → Bool
unfolding should_inline_right_layout
should_inline_primary_rprompt none = false
should_inline_primary_rprompt (some c) =
    should_inline_right_layout (length c.prompt_lines) (length c.rprompt_lines)

unfoldable pub should_inline_transient_rprompt : Option LayoutConfig → Bool
unfolding should_inline_right_layout
should_inline_transient_rprompt none = false
should_inline_transient_rprompt (some c) =
    should_inline_right_layout (length c.transient_prompt) (length c.transient_rprompt)

module _ (mirror_glyph : Bool → String → String) (c : LayoutConfig) where
  -- A clone of a segment's definition, turned around on the right.
  abbrev pub segment_for : BlockAlignment → Segment → Segment
  segment_for left definition = clone definition
  segment_for right definition = mirror_separators (mirror_glyph c.console) (clone definition)

  -- The segments that are defined, of those that a line names.
  unfoldable pub block_segments : BlockAlignment → List String → List Segment
  block_segments alignment [] = []
  block_segments alignment (name ∷ names) =
      let rest = block_segments alignment names in
      elim (lookup name c.segments) [
        | none ↦ rest
        | some definition ↦ segment_for alignment definition ∷ rest
      ]

  unfoldable pub layout_block : PromptLayout → BlockType → BlockAlignment → Bool → Block
  unfolding block_segments
  layout_block layout type alignment newline = record {
    type = type;
    alignment = alignment;
    filler = layout.filler;
    leading_glyph = layout.leading_glyph;
    trailing_glyph = layout.trailing_glyph;
    segments = block_segments alignment layout.segments;
    newline = newline;
    force = false;
  }

  -- An empty block that is drawn all the same.
  abbrev pub forced_block : Bool → Block
  forced_block newline = record {
    type = prompt;
    alignment = left;
    filler = "";
    leading_glyph = "";
    trailing_glyph = "";
    segments = [];
    newline = newline;
    force = true;
  }

  -- The right block of line `i`: on the last line of the right layouts, the right prompt.
  unfoldable pub right_block : Bool → ℕ → ℕ → ℕ → Bool → PromptLayout → Block
  right_block inline_right left_count right_count i has_left layout =
      let last = eqb (i + 1) right_count in
      if inline_right && not last
      then layout_block layout prompt right (not (eqb i 0) && leb left_count i)
      else layout_block layout rprompt right false

  -- The blocks of line `i` of `composeLayoutBlocks`, by the layouts that it has.
  unfoldable pub line_blocks :
      Bool → ℕ → ℕ → ℕ → Option PromptLayout → Option PromptLayout → List Block
  unfolding right_block
  line_blocks inline_right left_count right_count i none none = []
  line_blocks inline_right left_count right_count i (some l) none =
      layout_block l prompt left (not (eqb i 0)) ∷ []
  line_blocks inline_right left_count right_count i none (some r) =
      let block = right_block inline_right left_count right_count i false r in
      if inline_right && eqb (i + 1) right_count
      then forced_block (not (eqb i 0)) ∷ block ∷ []
      else block ∷ []
  line_blocks inline_right left_count right_count i (some l) (some r) =
      layout_block l prompt left (not (eqb i 0))
      ∷ record (right_block inline_right left_count right_count i true r) { filler = l.filler }
      ∷ []

  -- The loop of `composeLayoutBlocks`, from line `i` on.
  unfoldable pub compose_from :
      Bool → ℕ → ℕ → ℕ → List PromptLayout → List PromptLayout → List Block
  unfolding line_blocks
  compose_from inline_right left_count right_count i [] [] = []
  compose_from inline_right left_count right_count i (l ∷ ls) [] =
      line_blocks inline_right left_count right_count i (some l) none
      ++ compose_from inline_right left_count right_count (suc i) ls []
  compose_from inline_right left_count right_count i [] (r ∷ rs) =
      line_blocks inline_right left_count right_count i none (some r)
      ++ compose_from inline_right left_count right_count (suc i) [] rs
  compose_from inline_right left_count right_count i (l ∷ ls) (r ∷ rs) =
      line_blocks inline_right left_count right_count i (some l) (some r)
      ++ compose_from inline_right left_count right_count (suc i) ls rs

  unfoldable pub compose_layout_blocks : List PromptLayout → List PromptLayout → Bool → List Block
  unfolding compose_from
  compose_layout_blocks ls rs inline_right =
      compose_from inline_right (length ls) (length rs) 0 ls rs

unfoldable pub layout_primary_blocks : (Bool → String → String) → Option LayoutConfig → List Block
unfolding compose_layout_blocks should_inline_primary_rprompt
layout_primary_blocks mirror_glyph none = []
layout_primary_blocks mirror_glyph (some c) =
    compose_layout_blocks mirror_glyph c c.prompt_lines c.rprompt_lines
      (should_inline_primary_rprompt (some c))

-- Each layout as a block of its own, from line `i` on.
unfoldable pub numbered_blocks :
    (Bool → String → String) → LayoutConfig → ℕ → List PromptLayout → List Block
numbered_blocks mirror_glyph c i [] = []
numbered_blocks mirror_glyph c i (l ∷ ls) =
    layout_block mirror_glyph c l prompt left (not (eqb i 0))
    ∷ numbered_blocks mirror_glyph c (suc i) ls

-- `resolveStreamingTransientBlocks` of src/prompt/streaming.go.
unfoldable pub resolve_streaming_transient_blocks :
    (Bool → String → String) → Option LayoutConfig → List Block
unfolding should_inline_transient_rprompt compose_layout_blocks numbered_blocks
resolve_streaming_transient_blocks mirror_glyph none = []
resolve_streaming_transient_blocks mirror_glyph (some c) =
    if should_inline_transient_rprompt (some c)
    then compose_layout_blocks mirror_glyph c c.transient_prompt c.transient_rprompt true
    else numbered_blocks mirror_glyph c 0 c.transient_prompt

abbrev last_of : PromptLayout → List PromptLayout → PromptLayout
last_of l [] = l
last_of l (m ∷ ls) = last_of m ls

abbrev right_prompt :
    (Bool → String → String) → LayoutConfig → Bool → List PromptLayout → List Block
right_prompt mirror_glyph c inline [] = []
right_prompt mirror_glyph c inline (l ∷ ls) =
    layout_block mirror_glyph c (if inline then last_of l ls else l) rprompt right false ∷ []

-- `resolveStreamingRTransientBlocks`: the last line of the layouts, or the first.
unfoldable pub resolve_streaming_rtransient_blocks :
    (Bool → String → String) → Option LayoutConfig → List Block
unfolding should_inline_transient_rprompt
resolve_streaming_rtransient_blocks mirror_glyph none = []
resolve_streaming_rtransient_blocks mirror_glyph (some c) =
    right_prompt mirror_glyph c (should_inline_transient_rprompt (some c)) c.transient_rprompt
