-- ===== src/Daemon/RenderPipeline/Deadline.antt =====
-- How long the render of src/daemon/render_pipeline.go waits before it draws late segments as timed
-- out. Durations and times are nanoseconds; what `time.Until` reads of the clock is an argument, and
-- its saturation is left out.
use prompto.Prelude.{◌≡◌, ◌⊎◌, not, ◌||◌, Option, none, some, arith, if◌then◌else◌}
use prompto.Prelude.Int.{ℤ, pos, negsuc, ◌-ℤ◌, ◌≤ℤ◌, ◌<ℤ◌, ltb_ℤ, is_pos}

-- Five seconds.
abbrev pub client_report_margin : ℤ
client_report_margin = pos 5000000000

-- `renderMarkerDeadline`: the client's deadline is `none` when it is the zero time.
unfoldable pub render_marker_deadline : ℤ → Option ℤ → ℤ → ℤ
render_marker_deadline configured none now = configured
render_marker_deadline configured (some client_deadline) now =
    let latest = client_deadline -ℤ now -ℤ client_report_margin in
    if not (is_pos latest)
    then pos 0
    else if not (is_pos configured) || ltb_ℤ latest configured
    then latest
    else configured

decided :
    (configured latest : ℤ)
    → let result =
        if not (is_pos latest)
        then pos 0
        else if not (is_pos configured) || ltb_ℤ latest configured
        then latest
        else configured in
      ((latest ≤ℤ pos 0) × (result ≡ pos 0))
      ⊎ ((pos 0 <ℤ result)
          × (result ≤ℤ latest)
          × ((result ≡ latest) ⊎ (result ≡ configured))
          × ((configured ≤ℤ pos 0) ⊎ (result ≤ℤ configured)))
decided (pos c) (pos l) = ground arith
decided (pos c) (negsuc l) = ground arith
decided (negsuc c) (pos l) = ground arith
decided (negsuc c) (negsuc l) = ground arith

-- For a client with a deadline, the render is given no marker deadline if the client stops listening
-- within five seconds. Otherwise it is given a positive one, by which the client is still listening
-- for five seconds, and which is either that latest moment or the configured deadline; and no later
-- than the configured deadline, if that is positive.
pub render_marker_deadline-some :
    (configured client_deadline now : ℤ)
    → let latest = client_deadline -ℤ now -ℤ client_report_margin in
      let result = render_marker_deadline configured (some client_deadline) now in
      ((latest ≤ℤ pos 0) × (result ≡ pos 0))
      ⊎ ((pos 0 <ℤ result)
          × (result ≤ℤ latest)
          × ((result ≡ latest) ⊎ (result ≡ configured))
          × ((configured ≤ℤ pos 0) ⊎ (result ≤ℤ configured)))
unfolding render_marker_deadline
render_marker_deadline-some configured client_deadline now =
    decided configured (client_deadline -ℤ now -ℤ client_report_margin)
