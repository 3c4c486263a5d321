-- ===== src/Config/Segment/Execution.antt =====
-- src/config/segment.go: `Execute` and `Render`, and which segments they keep hidden.
use prompto.Prelude.{
  ℕ, ◌≡◌, refl, inl, inr, Bool, true, false, not, ◌&&◌, ◌||◌, none, some, String, if◌then◌else◌,
  ◌==◌, string_comparable, Option-cases, ap, ◌∙◌,
}
use prompto.Prelude.Dict.{insert, delete}
use prompto.Config.Responsive.{should_hide_for_width}
use prompto.Template.Choice.{resolve}
use prompto.Config.Segment.{
  Writer, Segment, Host, Shared, map_segment_with_writer, should_include_folder, is_toggled,
  is_abandoned, name_of, render_on,
}

-- What `Execute` leaves when its guards let the writer run.
abbrev pub enabled_by : Host → Segment → Shared → Writer → Segment × Shared
enabled_by h s shared w =
    let (enabled, w') = h.run_writer w in
    (
      record s { writer = some w'; enabled = enabled },
      if enabled && not (is_abandoned s) then insert (name_of h s) w' shared else shared,
    )

unfoldable pub execute : Host → Segment → Shared → Segment × Shared
unfolding map_segment_with_writer should_include_folder is_toggled is_abandoned name_of
execute h s shared =
    let (s', mapped) = map_segment_with_writer h s in
    if not mapped || not (should_include_folder h s')
    then (s', shared)
    else if is_toggled h s'
    then (s', shared)
    else if should_hide_for_width h.width s'.min_width s'.max_width
    then (s', shared)
    else elim s'.writer [ none ↦ (s', shared) | some w ↦ enabled_by h s' shared w ]

-- `segment.string()`: the text of the templates, and the template that it sets.
unfoldable pub string_of : Host → Segment → Writer → String × String
string_of h s w =
    let result = resolve (render_on h (some w)) h.is_blank s.templates "" s.templates_logic in
    let template = if s.template == "" then h.default_template w else s.template in
    if not (result == "") then (result, s.template) else (
      elim (h.render template w) [ none ↦ h.render_error template w | some text ↦ text ],
      template,
    )

-- `Render`, with whether it drew the segment.
unfoldable pub render : Host → Segment → ℕ → Bool → Shared → Bool × Segment × Shared
unfolding string_of name_of
render h s i force shared =
    if not s.enabled && not force then (false, s, shared) else elim s.writer [
      | none ↦ (false, s, shared)
      | some w ↦
          let w' : Writer = record w { index = i } in
          let (text, template) = string_of h s w' in
          if not force && not s.force && h.is_spaces text
          then (
            false,
            record s { writer = some w'; enabled = false; template = template },
            delete (name_of h s) shared,
          )
          else (
            true,
            record s {
              writer = some (record w' { text = text });
              enabled = true;
              template = template;
            },
            insert (name_of h s) (record w' { text = text }) shared,
          )
    ]

-- Which segments `Execute` does not let run.
abbrev pub hides : Host → Segment → Bool
hides h s =
    let (s', mapped) = map_segment_with_writer h s in
    not mapped
    || not (should_include_folder h s')
    || is_toggled h s'
    || should_hide_for_width h.width s'.min_width s'.max_width

guards :
    {A : Type 0} (mapped included toggled narrow : Bool) (x y : A)
    → (if not mapped || not included then x else if toggled then x else if narrow then x else y)
      ≡ (if not mapped || not included || toggled || narrow then x else y)
guards true true true narrow x y = refl
guards true true false narrow x y = refl
guards true false toggled narrow x y = refl
guards false included toggled narrow x y = refl

-- `Execute`, by whether the segment is hidden.
abbrev pub ran : Host → Segment → Shared → Segment × Shared
ran h s shared =
    let s' = (map_segment_with_writer h s).0 in
    elim s'.writer [ none ↦ (s', shared) | some w ↦ enabled_by h s' shared w ]

pub execute_lem :
    (h : Host) (s : Segment) (shared : Shared)
    → execute h s shared
      ≡ (if hides h s then ((map_segment_with_writer h s).0, shared) else ran h s shared)
unfolding execute
execute_lem h s shared =
    let (s', mapped) = map_segment_with_writer h s in
    guards mapped (should_include_folder h s') (is_toggled h s')
      (should_hide_for_width h.width s'.min_width s'.max_width) _ _

mapped_enabled : (h : Host) (s : Segment) → (map_segment_with_writer h s).0.enabled ≡ s.enabled
unfolding map_segment_with_writer
mapped_enabled h s = elim (Option-cases (h.new_writer s.type)) [
  | inl unknown ↦ rw (unknown, map_segment_with_writer)
  | inr (w, e) ↦ rw (e, map_segment_with_writer)
]

not_drawn :
    (h : Host) (s : Segment) (i : ℕ) (shared : Shared)
    → s.enabled ≡ false
    → render h s i false shared ≡ (false, s, shared)
unfolding render
not_drawn h s i shared off = rw off

-- What is drawn for a segment that is new in this render: `Execute`, then `Render` without --force.
abbrev pub execute_and_render : Host → Segment → ℕ → Shared → Bool × Segment × Shared
execute_and_render h s i shared =
    let (s', shared') = execute h s shared in render h s' i false shared'

-- A segment that is not enabled beforehand and that has no writer, stands in an excluded folder, is
-- toggled off, or is hidden for the width of the terminal is not drawn after it was executed, even if
-- its own force is set, unless the prompt is forced; it stays disabled, and the writers that
-- other segments' templates can read stay as they are.
pub execute_and_render-hides :
    (h : Host) (s : Segment) (i : ℕ) (shared : Shared)
    → s.enabled ≡ false
    → hides h s ≡ true
    → ((execute_and_render h s i shared).0 ≡ false)
      × ((execute_and_render h s i shared).1.enabled ≡ false)
      × ((execute_and_render h s i shared).2 ≡ shared)
execute_and_render-hides h s i shared off hidden =
    let s' = (map_segment_with_writer h s).0 in
    let off' = mapped_enabled h s ∙ off in
    let e : execute_and_render h s i shared ≡ (false, s', shared) =
      ap (λ (r : Segment × Shared). render h r.0 i false r.1)
        (execute_lem h s shared ∙ ap (λ b. if b then (s', shared) else ran h s shared) hidden)
      ∙ not_drawn h s' i shared off' in
    (ap (λ r. r.0) e, ap (λ r. r.1.enabled) e ∙ off', ap (λ r. r.2) e)
