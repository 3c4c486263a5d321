-- ===== src/Prompt/Streaming/Blocks.antt =====
-- src/prompt/streaming.go: how a block is drawn while some of its segments are pending. What is
-- handed to the writer of the terminal is a list of pieces; the separators between them and the
-- texts of the terminal are left out. The segments of a block are told apart by their stream keys.
pub mod Redraw
pub mod Baking
use prompto.Prelude.{
  ℕ, ◌+◌, Bool, true, false, not, ◌&&◌, List, [], ◌∷◌, Option, none, some, String, if◌then◌else◌,
  ◌==◌, string_comparable,
}
use prompto.Prelude.Int.{ℤ}
use prompto.Prelude.Dict.{Dict, lookup, is_some}
use prompto.Config.Segment.{
  Segment, Host, Shared, text_of, set_text, resolve_foreground, resolve_background,
}
use prompto.Config.Segment.Placeholder.{Config, get_pending_text, get_timeout_text}
use prompto.Config.Segment.Execution.{render}
use prompto.Prompt.CacheModel.{Caches, store_segment_cache}
use prompto.Prompt.Streaming.{Engine, vim}

-- A segment that is drawn, or one without text, of which only the glyphs may be kept.
pub data Piece : Type 0 where
  draws : Segment → Piece
  keeps : Segment → Piece

pub record SegmentStyle : Type 0 where
  pub text : String
  pub foreground : String
  pub background : String
  pub foreground_templates : List String
  pub background_templates : List String
  pub enabled : Bool

unfoldable pub style_of : Segment → SegmentStyle
style_of s = record {
  text = text_of s;
  foreground = s.foreground;
  background = s.background;
  foreground_templates = s.foreground_templates;
  background_templates = s.background_templates;
  enabled = s.enabled;
}

unfoldable pub restore : SegmentStyle → Segment → Segment
restore style s = record (set_text s style.text) {
  foreground = style.foreground;
  background = style.background;
  foreground_templates = style.foreground_templates;
  background_templates = style.background_templates;
  enabled = style.enabled;
}

unfoldable pub bake_resolved_colors : Host → Segment → Segment
bake_resolved_colors h s = record s {
  foreground = resolve_foreground h s;
  background = resolve_background h s;
}

abbrev pub cached_value : Engine → String → String
cached_value e key = elim (lookup key e.cached_values) [ none ↦ "" | some text ↦ text ]

-- `writePlaceholderSegment`, up to its drawing.
unfoldable pub placeholder : Engine → Option Config → Segment → String → Segment
placeholder e cfg s key =
    let cached = cached_value e key in
    let (pending_text, background) = get_pending_text s cached cfg in
    let (timed_out_text, foreground) = get_timeout_text s cached cfg in
    let late = is_some (lookup key e.timed_out_segments) in
    record (set_text s (if late then timed_out_text else pending_text)) {
      foreground = if late then foreground else s.foreground;
      background = if background == "" then "darkGray" else background;
      foreground_templates = [];
      background_templates = [];
      enabled = true;
    }

-- What the loop of `writeBlockSegmentsStreaming` has when it has written a segment.
pub record Written : Type 0 where
  pub segment : Segment
  pub saved : Option SegmentStyle
  pub piece : Piece
  pub index : ℕ
  pub shared : Shared
  pub caches : Caches

-- The segment with the style that was saved.
abbrev pub put_back : Written → Segment
put_back w = elim w.saved [ none ↦ w.segment | some style ↦ restore style w.segment ]

-- Whether a segment is drawn from the text that it has.
unfoldable pub is_shown : Segment → Bool
is_shown s = not (text_of s == "") && s.enabled

module _ (h : Host) (seconds_of : String → ℤ) (e : Engine) (cfg : Option Config)
    (repaint_only force : Bool) (now : ℤ) where
  -- A segment that `Render` is asked for.
  unfoldable pub write_rendered : Segment → ℕ → Shared → Caches → Written
  unfolding bake_resolved_colors
  write_rendered s i shared caches =
      let (drew, s', shared') = render h s i force shared in
      let baked = bake_resolved_colors h s' in
      if not drew
      then record {
        segment = s';
        saved = none;
        piece = keeps s';
        index = i;
        shared = shared';
        caches = caches;
      }
      else record {
        segment = baked;
        saved = none;
        piece = draws baked;
        index = i + 1;
        shared = shared';
        caches = store_segment_cache h seconds_of caches s' now now;
      }

  unfoldable pub write_segment : String → Segment → ℕ → Shared → Caches → Written
  unfolding placeholder style_of write_rendered is_shown
  write_segment key s i shared caches =
      let marker = placeholder e cfg s key in
      let plain : Segment = record s { foreground_templates = []; background_templates = [] } in
      if is_some (lookup key e.pending_segments)
      then record {
        segment = marker;
        saved = some (style_of s);
        piece = draws marker;
        index = i;
        shared = shared;
        caches = caches;
      }
      else if is_shown s
      then record {
        segment = plain;
        saved = some (style_of s);
        piece = draws plain;
        index = i + 1;
        shared = shared;
        caches = caches;
      }
      else if repaint_only && not (s.type == vim)
      then record {
        segment = s;
        saved = none;
        piece = keeps s;
        index = i;
        shared = shared;
        caches = caches;
      }
      else write_rendered s i shared caches

  -- The segments of a block when the styles that were saved have been put back, and the pieces.
  unfoldable pub write_block_segments :
      Dict String Segment
      → ℕ
      → Shared
      → Caches
      → (Dict String Segment × List Piece) × Shared × Caches
  unfolding write_segment restore
  write_block_segments [] i shared caches = (([], []), shared, caches)
  write_block_segments ((key, s) ∷ rest) i shared caches =
      let w = write_segment key s i shared caches in
      let ((after, pieces), shared', caches') =
        write_block_segments rest w.index w.shared w.caches in
      (((key, put_back w) ∷ after, w.piece ∷ pieces), shared', caches')
