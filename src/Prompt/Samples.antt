-- ===== src/Prompt/Samples.antt =====
-- Concrete segments, caches and engines for the tests.
use prompto.Prelude.{
  Bool, true, false, List, [], ◌∷◌, Option, none, some, String, if◌then◌else◌, ◌==◌,
  string_comparable,
}
use prompto.Prelude.Int.{ℤ, pos}
use prompto.Prelude.Dict.{Dict}
use prompto.Cache.Duration.{seconds}
use prompto.Config.Segment.{Writer, Segment, Host, session}
use prompto.Prompt.CacheModel.{Caches}
use prompto.Prompt.Streaming.{Engine, StreamingResult, Prepared, ends_collection}
use prompto.Prompt.Streaming.Publish.{
  Event, receives, expires, Publisher, Action, publishes, repaints,
}
use prompto.Prompt.Streaming.Settling.{started}
use prompto.Prompt.Streaming.Blocks.{Written, write_rendered}

abbrev pub blank_writer : Writer
blank_writer = record { fields = ""; text = ""; index = 0 }

-- A host on which every template renders to itself.
abbrev pub host : Host
host = record {
  render = λ tmpl w. some tmpl;
  render_error = λ tmpl w. "error";
  is_blank = λ t. t == "";
  is_spaces = λ t. t == "";
  title = λ t. t;
  new_writer = λ t. if t == "unknown" then none else some blank_writer;
  run_writer = λ w. (true, w);
  cache_key = λ w. none;
  default_template = λ w. "default";
  copy_fields = λ v w. some v;
  pwd = "/home";
  dir_matches = λ ds. false;
  width = some (pos 80);
  session_toggles = some (("git", true) ∷ []);
  shared_toggles = none;
}

abbrev pub segment_of : String → Segment
segment_of type = record {
  writer = some blank_writer;
  has_env = true;
  abandoned = none;
  cache = none;
  alias = "";
  name = "";
  type = type;
  leading_glyph = "";
  trailing_glyph = "";
  render_pending_icon = "";
  render_timeout_icon = "";
  render_pending_background = "";
  render_timeout_foreground = "";
  template = "on main";
  templates = [];
  templates_logic = "";
  foreground = "white";
  background = "";
  separator_foreground = "";
  foreground_templates = "blue" ∷ [];
  background_templates = [];
  include_folders = [];
  exclude_folders = [];
  max_width = pos 0;
  min_width = pos 0;
  index = 0;
  enabled = false;
  force = false;
}

abbrev pub caches : Caches
caches = record {
  has_layout = true;
  session_cache = [];
  folder_cache = [];
  global_cache = [];
  device_cache = none;
}

abbrev pub with_cache : Segment → String → Segment
with_cache s duration = record s {
  cache = some (record { duration = duration; strategy = session });
  enabled = true;
}

abbrev pub no_times : String → Option ℤ
no_times t = none

abbrev pub engine : Engine
engine = record {
  segments = [];
  pending_segments = [];
  timed_out_segments = [];
  cached_values = [];
  segment_cache_keys = [];
  vim_repainted = false;
  caches = caches;
  shared = [];
}

-- A prompt with one segment that is late.
abbrev pub one_segment : Dict String Segment
one_segment = ("primary:0:0:path", segment_of "path") ∷ []

abbrev pub late_result : StreamingResult
late_result = record {
  executed = some (record (segment_of "path") { enabled = true });
  key = "primary:0:0:path";
}

abbrev pub actions : List Action
actions =
    publishes (expires false) ∷ repaints (pos 7) [] ∷ publishes (receives late_result false) ∷ []

abbrev pub late : Publisher
late = started host (seconds no_times) (pos 5) engine one_segment (ends_collection ∷ []) true

abbrev pub path_pending : Dict String Bool
path_pending = ("primary:0:0:path", true) ∷ []

-- A repaint has drawn the mode segment.
abbrev pub drawn_vim : Engine
drawn_vim = record engine {
  segments = ("primary:0:1:vim", segment_of "vim") ∷ [];
  pending_segments = ("primary:0:1:vim", true) ∷ [];
  vim_repainted = true;
}

abbrev pub vim_result : Event
vim_result =
    receives
      (record {
        executed = some (record (segment_of "vim") { enabled = true });
        key = "primary:0:1:vim";
      })
      false

abbrev pub prepared : Prepared
prepared = record { engine = engine; to_execute = []; completed = [] }

abbrev pub enabled_path : Segment
enabled_path = record (segment_of "path") { enabled = true }

abbrev pub first_drawing : Written
first_drawing =
    write_rendered host (seconds no_times) engine none false false (pos 9) enabled_path 0 [] caches

-- The segment with its text and its colour.
abbrev pub baked_path : Segment
baked_path = record enabled_path {
  writer = some (record blank_writer { text = "on main" });
  foreground = "blue";
}
