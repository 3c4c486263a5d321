-- ===== src/Prompt/Streaming/Blocks/Redraw.antt =====
-- That drawing a block of src/prompt/streaming.go again changes nothing of what was drawn.
use prompto.Prelude.{
  ℕ, ◌≡◌, refl, ◌⊎◌, inl, inr, Bool, true, false, ◌||◌, List, [], ◌∷◌, Option, none, some, String,
  string_comparable, arith, Bool-cases,
}
use prompto.Prelude.Int.{ℤ}
use prompto.Prelude.Dict.{Dict, lookup, is_some}
use prompto.Config.Segment.{Segment, Host, Shared, Writer, text_of, set_text}
use prompto.Config.Segment.Placeholder.{Config}
use prompto.Prompt.CacheModel.{Caches}
use prompto.Prompt.Streaming.{Engine}
use prompto.Prompt.Streaming.Blocks.{
  style_of, restore, placeholder, is_shown, write_segment, put_back, write_block_segments,
}

-- Putting a style back undoes what was done to a segment's style.
restore-style_of :
    (s : Segment) (text foreground background : String) (fs bs : List String) (enabled : Bool)
    → restore (style_of s) (record (set_text s text) {
      foreground = foreground;
      background = background;
      foreground_templates = fs;
      background_templates = bs;
      enabled = enabled;
    })
      ≡ s
unfolding restore style_of set_text text_of
restore-style_of s text foreground background fs bs enabled = by_writer s.writer
  where
    by_writer :
        (o : Option Writer)
        → let t : Segment = record s { writer = o } in
          restore (style_of t) (record (set_text t text) {
            foreground = foreground;
            background = background;
            foreground_templates = fs;
            background_templates = bs;
            enabled = enabled;
          })
          ≡ t
    by_writer none = refl
    by_writer (some w) = refl

restore-plain :
    (s : Segment)
    → restore (style_of s) (record s { foreground_templates = []; background_templates = [] }) ≡ s
unfolding restore style_of set_text text_of
restore-plain s = by_writer s.writer
  where
    by_writer :
        (o : Option Writer)
        → let t : Segment = record s { writer = o } in
          restore (style_of t) (record t { foreground_templates = []; background_templates = [] })
          ≡ t
    by_writer none = refl
    by_writer (some w) = refl

module _ (h : Host) (seconds_of : String → ℤ) (e : Engine) (cfg : Option Config)
    (repaint_only force : Bool) (now : ℤ) where
  -- Whether a segment is drawn without being rendered.
  abbrev pub is_drawn_as_is : String → Segment → Bool
  is_drawn_as_is key s = is_some (lookup key e.pending_segments) || is_shown s

  write_segment-put_back :
      (key : String) (s : Segment) (i : ℕ) (shared : Shared) (caches : Caches)
      → is_drawn_as_is key s ≡ true
      → put_back (write_segment h seconds_of e cfg repaint_only force now key s i shared caches) ≡ s
  unfolding write_segment placeholder
  write_segment-put_back key s i shared caches d =
      elim (Bool-cases (is_some (lookup key e.pending_segments))) [
        | inl pending ↦ rw pending (restore-style_of s _ _ _ _ _ _)
        | inr other ↦ rw other (rw (shown_of other) (restore-plain s))
      ]
    where
      shown_of : is_some (lookup key e.pending_segments) ≡ false → is_shown s ≡ true
      shown_of other = ground arith

  -- Each segment that is drawn as it is comes back as it was.
  abbrev pub Kept : Dict String Segment → Dict String Segment → Type 0
  Kept [] [] = Unit
  Kept [] (x ∷ xs) = ⊥
  Kept (x ∷ xs) [] = ⊥
  Kept ((key, s) ∷ segments) ((key', s') ∷ after) =
      (key' ≡ key) × ((is_drawn_as_is key s ≡ false) ⊎ (s' ≡ s)) × Kept segments after

  -- Drawing a block leaves each of its segments that is pending, or already has its text, exactly as it
  -- was: its text, its colours, its templates and whether it is enabled.
  pub write_block_segments-Kept :
      (segments : Dict String Segment) (i : ℕ) (shared : Shared) (caches : Caches)
      → Kept segments
          (write_block_segments h seconds_of e cfg repaint_only force now segments i shared
            caches).0.0
  unfolding write_block_segments
  write_block_segments-Kept [] i shared caches = tt
  write_block_segments-Kept ((key, s) ∷ rest) i shared caches =
      let w = write_segment h seconds_of e cfg repaint_only force now key s i shared caches in
      (
        refl,
        kept (is_drawn_as_is key s) (write_segment-put_back key s i shared caches),
        write_block_segments-Kept rest w.index w.shared w.caches,
      )
    where
      kept : {A : Type 0} {x y : A} (b : Bool) → (b ≡ true → x ≡ y) → (b ≡ false) ⊎ (x ≡ y)
      kept true f = inr (f refl)
      kept false f = inl refl
