-- ===== src/Prompt/Streaming/Blocks/Baking.antt =====
-- That src/prompt/streaming.go draws a segment with the same text and colours in every later render.
use prompto.Prelude.{
  ℕ, ◌≡◌, refl, sym, ap, ◌∙◌, subst, Bool, true, false, not, List, [], ◌∷◌, Option, String,
  if◌then◌else◌, string_comparable,
}
use prompto.Prelude.Int.{ℤ}
use prompto.Prelude.Dict.{lookup, is_some}
use prompto.Template.Choice.{first_match, values, head_or, first_match-values}
use prompto.Config.Segment.{
  Segment, Host, Shared, text_of, render_on, resolve_foreground, resolve_background,
}
use prompto.Config.Segment.Placeholder.{Config}
use prompto.Config.Segment.Execution.{render}
use prompto.Prompt.CacheModel.{Caches}
use prompto.Prompt.Streaming.{Engine}
use prompto.Prompt.Streaming.Blocks.{
  draws, keeps, bake_resolved_colors, Written, is_shown, write_rendered, write_segment,
}

-- A choice that falls back on itself is itself.
first_match-twice :
    (render : String → Option String) (is_blank : String → Bool) (l : List String)
    (default : String)
    → first_match render is_blank l (first_match render is_blank l default)
      ≡ first_match render is_blank l default
first_match-twice render is_blank l default =
    first_match-values render is_blank l (first_match render is_blank l default)
    ∙ ap (λ d. head_or d (values render is_blank l)) (first_match-values render is_blank l default)
    ∙ head_or-twice (values render is_blank l)
    ∙ sym (first_match-values render is_blank l default)
  where
    head_or-twice : (vs : List String) → head_or (head_or default vs) vs ≡ head_or default vs
    head_or-twice [] = refl
    head_or-twice (v ∷ vs) = refl

-- A segment drawn with the text and the colours of another.
pub record LooksLike (h : Host) (s t : Segment) : Type 0 where
  pub text : text_of t ≡ text_of s
  pub foreground : resolve_foreground h t ≡ resolve_foreground h s
  pub background : resolve_background h t ≡ resolve_background h s

-- Dropping the templates of a segment whose colours are baked.
plain_bake-LooksLike :
    (h : Host) (s : Segment)
    → let b = bake_resolved_colors h s in
      LooksLike h b (record b { foreground_templates = []; background_templates = [] })
unfolding bake_resolved_colors resolve_foreground resolve_background text_of first_match
plain_bake-LooksLike h s = record {
  text = refl;
  foreground =
      sym (first_match-twice (render_on h s.writer) h.is_blank s.foreground_templates s.foreground);
  background =
      sym (first_match-twice (render_on h s.writer) h.is_blank s.background_templates s.background);
}

-- What was drawn, of a segment that is kept back or drawn.
drawn_of :
    (c : Bool) (x y : Written) (t u b : Segment)
    → x.piece ≡ keeps t
    → y.piece ≡ draws u
    → y.segment ≡ u
    → (if not c then x else y).piece ≡ draws b
    → ((if not c then x else y).segment ≡ u) × (b ≡ u)
drawn_of true x y t u b k d e p = (e, cc)
drawn_of false x y t u b k d e p = cc

module _ (h : Host) (seconds_of : String → ℤ) (e : Engine) (cfg : Option Config)
    (repaint_only force : Bool) (now : ℤ) where
  drawn-baked :
      (s : Segment) (i : ℕ) (shared : Shared) (caches : Caches) (b : Segment)
      → let w = write_rendered h seconds_of e cfg repaint_only force now s i shared caches in
        let s' = (render h s i force shared).1 in
        w.piece ≡ draws b
        → (w.segment ≡ bake_resolved_colors h s') × (b ≡ bake_resolved_colors h s')
  unfolding write_rendered
  drawn-baked s i shared caches b p =
      let (drew, s', shared') = render h s i force shared in
      drawn_of drew _ _ s' (bake_resolved_colors h s') b refl refl refl p

  -- A later write of a segment that is not pending and has its text.
  write_segment-shown :
      (key : String) (b : Segment) (i : ℕ) (shared : Shared) (caches : Caches)
      → is_some (lookup key e.pending_segments) ≡ false
      → is_shown b ≡ true
      → (write_segment h seconds_of e cfg repaint_only force now key b i shared caches).piece
        ≡ draws (record b { foreground_templates = []; background_templates = [] })
  unfolding write_segment
  write_segment-shown key b i shared caches settled shown = rw settled (rw shown)

-- Let a streaming prompt render a segment and draw it, with text to show. A later write of the
-- segment as that drawing left it, with no execution and no cached value put into it in between and
-- with the segment not pending, draws it with the same text, foreground and background, although the
-- colour templates were dropped.
pub write_segment-LooksLike :
    (h : Host) (seconds_of : String → ℤ) (e e' : Engine) (cfg : Option Config)
    (repaint_only repaint_only' force : Bool) (now now' : ℤ) (key : String) (s b : Segment)
    (i j : ℕ) (shared shared' : Shared) (caches caches' : Caches)
    → let w = write_rendered h seconds_of e cfg repaint_only force now s i shared caches in
      w.piece ≡ draws b
      → is_shown b ≡ true
      → is_some (lookup key e'.pending_segments) ≡ false
      → (t : Segment) × ((write_segment h seconds_of e' cfg repaint_only' force now' key w.segment j
            shared' caches').piece
          ≡ draws t)
        × LooksLike h b t
write_segment-LooksLike h seconds_of e e' cfg repaint_only repaint_only' force now now' key s b i j
      shared shared' caches caches' p shown settled =
    let s' = (render h s i force shared).1 in
    let (written, drawn) =
      drawn-baked h seconds_of e cfg repaint_only force now s i shared caches b p in
    let again =
      write_segment-shown h seconds_of e' cfg repaint_only' force now' key b j shared' caches'
        settled shown in
    (
      record b { foreground_templates = []; background_templates = [] },
      ap
            (λ x.
              (write_segment h seconds_of e' cfg repaint_only' force now' key x j shared'
                caches').piece)
            (written ∙ sym drawn)
          ∙ again,
      subst (λ x. LooksLike h x (record x { foreground_templates = []; background_templates = [] }))
          (sym drawn) (plain_bake-LooksLike h s'),
    )
