-- ===== src/Prompt/LayoutTests.antt =====
-- The theorems about the blocks of a layout at a concrete input.
use prompto.Prelude.{◌≡◌, Bool, false, [], ◌∷◌, String, some, count_p, if◌then◌else◌, eqb, length}
use prompto.Prompt.Layout.{PromptLayout, LayoutConfig, layout_primary_blocks}
use prompto.Prompt.Layout.Composition.{is_rprompt, layout_primary_blocks-count}

abbrev line_of : String → PromptLayout
line_of name = record { segments = name ∷ []; filler = ""; leading_glyph = ""; trailing_glyph = "" }

-- One line on the left and two on the right.
abbrev layout : LayoutConfig
layout = record {
  prompt_lines = line_of "path" ∷ [];
  rprompt_lines = line_of "git" ∷ line_of "time" ∷ [];
  secondary_prompt = [];
  transient_prompt = [];
  transient_rprompt = [];
  segments = [];
  console = false;
}

abbrev no_mirror : Bool → String → String
no_mirror on_console glyph = glyph

layout_primary_blocks-count_example :
    count_p is_rprompt (layout_primary_blocks no_mirror (some layout))
    ≡ (if eqb (length layout.rprompt_lines) 0 then 0 else 1)
layout_primary_blocks-count_example = layout_primary_blocks-count no_mirror layout
