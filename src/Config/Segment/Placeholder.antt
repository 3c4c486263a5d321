-- ===== src/Config/Segment/Placeholder.antt =====
-- src/config/segment.go: what is drawn for a segment that has no value yet.
use Prim.Native.String.{◌++◌ as append_text}
use prompto.Prelude.{not, Option, none, some, String, if◌then◌else◌, ◌==◌, string_comparable}
use prompto.Config.Segment.{Segment}

-- `*Config`, as far as the placeholders read it.
pub record Config : Type 0 where
  pub render_pending_icon : String
  pub render_timeout_icon : String
  pub render_pending_background : String
  pub render_timeout_foreground : String

-- The segment's own setting, that of the config, or the built-in one.
abbrev pub setting : String → Option String → String → String
setting own global built_in =
    if not (own == "")
    then own
    else elim global [ none ↦ built_in | some g ↦ if g == "" then built_in else g ]

unfoldable pub get_pending_icon : Segment → Option Config → String
get_pending_icon s cfg =
    setting s.render_pending_icon (elim cfg [ none ↦ none | some c ↦ some c.render_pending_icon ])
      "\u{f254} "

unfoldable pub get_timeout_icon : Segment → Option Config → String
get_timeout_icon s cfg =
    setting s.render_timeout_icon (elim cfg [ none ↦ none | some c ↦ some c.render_timeout_icon ])
      "\u{ea87} "

unfoldable pub get_timeout_foreground : Segment → Option Config → String
get_timeout_foreground s cfg =
    setting s.render_timeout_foreground
      (elim cfg [ none ↦ none | some c ↦ some c.render_timeout_foreground ]) "red"

unfoldable pub get_pending_background : Segment → Option Config → String
get_pending_background s cfg =
    setting s.render_pending_background
      (elim cfg [ none ↦ none | some c ↦ some c.render_pending_background ]) ""

unfoldable pub get_pending_text : Segment → String → Option Config → String × String
unfolding get_pending_icon get_pending_background
get_pending_text s cached cfg = (
  append_text (get_pending_icon s cfg) (if cached == "" then "..." else cached),
  get_pending_background s cfg,
)

unfoldable pub get_timeout_text : Segment → String → Option Config → String × String
unfolding get_timeout_icon get_timeout_foreground
get_timeout_text s cached cfg =
    (append_text (get_timeout_icon s cfg) cached, get_timeout_foreground s cfg)
