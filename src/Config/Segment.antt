-- ===== src/Config/Segment.antt =====
-- src/config/segment.go: a segment of the prompt, its execution and its rendering.
-- A segment's writer is one of the repository's hundred types behind an interface: here its exported
-- fields are a text, beside the text and the index that all writers have. What lies outside of
-- the code is a `Host`: the environment, text/template, encoding/json and the table of writers.
-- Timings for debugging are left out, and so is `Needs`, which no operation here reads. The code
-- panics on the nil writer of an unknown type, which no layout has; here its text is empty.
pub mod Execution
pub mod Placeholder
use Prim.Native.String.{◌++◌ as append_text}
use prompto.Prelude.{
  ℕ, Bool, true, false, not, ◌&&◌, ◌||◌, List, [], ◌∷◌, Option, none, some, String, if◌then◌else◌,
  ◌==◌, string_comparable,
}
use prompto.Prelude.Int.{ℤ}
use prompto.Prelude.Dict.{Dict, lookup, insert, delete}
use prompto.Config.Responsive.{should_hide_for_width}
use prompto.Template.Choice.{first_match, resolve}

pub record Writer : Type 0 where
  pub fields : String
  pub text : String
  pub index : ℕ

pub record Cache : Type 0 where
  pub duration : String
  pub strategy : String

abbrev pub folder : String
folder = "folder"

abbrev pub session : String
session = "session"

abbrev pub device : String
device = "device"

pub record Segment : Type 0 where
  pub writer : Option Writer
  pub has_env : Bool
  pub abandoned : Option Bool
  pub cache : Option Cache
  pub alias : String
  pub name : String
  pub type : String
  pub leading_glyph : String
  pub trailing_glyph : String
  pub render_pending_icon : String
  pub render_timeout_icon : String
  pub render_pending_background : String
  pub render_timeout_foreground : String
  pub template : String
  pub templates : List String
  pub templates_logic : String
  pub foreground : String
  pub background : String
  pub separator_foreground : String
  pub foreground_templates : List String
  pub background_templates : List String
  pub include_folders : List String
  pub exclude_folders : List String
  pub max_width : ℤ
  pub min_width : ℤ
  pub index : ℕ
  pub enabled : Bool
  pub force : Bool

-- The environment and the libraries: `template.Render` and the text of its error, blank texts and texts less their spaces,
-- `cases.Title`, the table of writers by type with `Init`, the writers' `Enabled`, `CacheKey` and
-- `Template`, json, `Pwd`, `DirMatchesOneOf`, the terminal's width, and the toggles of the session,
-- where it has any, and of the shared cache.
pub record Host : Type 0 where
  pub render : String → Writer → Option String
  pub render_error : String → Writer → String
  pub is_blank : String → Bool
  pub is_spaces : String → Bool
  pub title : String → String
  pub new_writer : String → Option Writer
  pub run_writer : Writer → Bool × Writer
  pub cache_key : Writer → Option String
  pub default_template : Writer → String
  pub copy_fields : Writer → Writer → Option Writer
  pub pwd : String
  pub dir_matches : List String → Bool
  pub width : Option ℤ
  pub session_toggles : Option (Dict String Bool)
  pub shared_toggles : Option (Dict String Bool)

-- `template.Cache`: the writers that templates of other segments can refer to.
abbrev pub Shared : Type 0
Shared = Dict String Writer

unfoldable pub clone : Segment → Segment
clone s = record s {
  writer = none;
  has_env = false;
  abandoned = some false;
  name = "";
  index = 0;
  enabled = false;
}

-- The name, which the code keeps once it has it.
unfoldable pub name_of : Host → Segment → String
name_of h s =
    if not (s.name == "") then s.name else if s.alias == "" then h.title s.type else s.alias

unfoldable pub mark_abandoned : Segment → Segment
mark_abandoned s = record s { abandoned = elim s.abandoned [ none ↦ none | some b ↦ some true ] }

unfoldable pub is_abandoned : Segment → Bool
is_abandoned s = elim s.abandoned [ none ↦ false | some b ↦ b ]

unfoldable pub text_of : Segment → String
text_of s = elim s.writer [ none ↦ "" | some w ↦ w.text ]

unfoldable pub set_text : Segment → String → Segment
set_text s text = record s {
  writer = elim s.writer [ none ↦ none | some w ↦ some (record w { text = text }) ];
}

-- `MapSegmentWithWriter`, and whether it succeeded.
unfoldable pub map_segment_with_writer : Host → Segment → Segment × Bool
map_segment_with_writer h s = elim (h.new_writer s.type) [
  | none ↦ (record s { has_env = true }, false)
  | some w ↦ (record s { has_env = true; writer = some w }, true)
]

unfoldable pub ensure_writer : Host → Segment → Segment × Bool
unfolding map_segment_with_writer
ensure_writer h s = elim s.writer [
  | some w ↦ (record s { has_env = true }, true)
  | none ↦ map_segment_with_writer h s
]

-- `CopyWriterStateFrom`, or `none` for an error of json.
unfoldable pub copy_writer_state_from : Host → Segment → Segment → Option Segment
copy_writer_state_from h s source = elim s.writer [
  | none ↦ some s
  | some w ↦ elim source.writer [
    | none ↦ some s
    | some v ↦ elim (h.copy_fields v w) [
      | none ↦ none
      | some w' ↦ some (record s { writer = some w'; enabled = source.enabled })
    ]
  ]
]

-- The writer that templates are rendered on; a nil writer renders nothing here.
abbrev pub render_on : Host → Option Writer → String → Option String
render_on h none tmpl = none
render_on h (some w) tmpl = h.render tmpl w

unfoldable pub resolve_foreground : Host → Segment → String
resolve_foreground h s =
    first_match (render_on h s.writer) h.is_blank s.foreground_templates s.foreground

unfoldable pub resolve_background : Host → Segment → String
resolve_background h s =
    first_match (render_on h s.writer) h.is_blank s.background_templates s.background

unfoldable pub resolve_separator_foreground : Host → Segment → Bool → String
unfolding resolve_foreground resolve_background
resolve_separator_foreground h s on_console =
    if not (s.separator_foreground == "")
    then s.separator_foreground
    else if not on_console
    then "background"
    else (let background = resolve_background h s in
        if not (background == "") && not (background == "transparent")
        then background
        else resolve_foreground h s)

unfoldable pub mirror_separators : (String → String) → Segment → Segment
mirror_separators mirror_glyph s = record s {
  leading_glyph = mirror_glyph s.trailing_glyph;
  trailing_glyph = mirror_glyph s.leading_glyph;
}

unfoldable pub has_empty_glyph_at_end : Segment → Bool
has_empty_glyph_at_end s = not (s.leading_glyph == "") && s.trailing_glyph == ""

unfoldable pub toggle_name : Segment → String
toggle_name s = if not (s.alias == "") then s.alias else s.type

abbrev pub toggled_in : Dict String Bool → String → Bool
toggled_in toggles name = elim (lookup name toggles) [ none ↦ false | some b ↦ b ]

unfoldable pub is_toggled : Host → Segment → Bool
unfolding toggle_name
is_toggled h s = elim (if s.has_env then h.session_toggles else none) [
  | some toggles ↦ toggled_in toggles (toggle_name s)
  | none ↦ elim h.shared_toggles [
    | none ↦ false
    | some toggles ↦ toggled_in toggles (toggle_name s)
  ]
]

-- `FolderKey`; that `CacheKey` may panic is in `cache_key`, as no key.
unfoldable pub folder_key : Host → Segment → String
folder_key h s = if not s.has_env then "" else elim s.writer [
  | none ↦ h.pwd
  | some w ↦ elim (h.cache_key w) [ none ↦ h.pwd | some key ↦ if key == "" then h.pwd else key ]
]

unfoldable pub daemon_cache_key : Host → Segment → String
unfolding name_of folder_key
daemon_cache_key h s =
    let name = name_of h s in
    let by_folder =
      append_text "daemon_cache_" (append_text name (append_text "_" (folder_key h s))) in
    elim s.cache [
      | none ↦ by_folder
      | some c ↦ if c.strategy == session then append_text "daemon_cache_" name else by_folder
    ]

unfoldable pub should_include_folder : Host → Segment → Bool
should_include_folder h s =
    if not s.has_env
    then true
    else (elim s.include_folders [ [] ↦ true | d ∷ ds ↦ h.dir_matches s.include_folders ])
      && not (h.dir_matches s.exclude_folders)
