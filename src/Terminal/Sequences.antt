-- ===== src/Terminal/Sequences.antt =====
-- The escape sequences of src/terminal/writer.go that stand beside the text: lines, titles, marks, progress.
-- `trim_ansi` stands for the regular expression that takes escape sequences out of a title.
use prompto.Prelude.{
  Bool, not, ◌||◌, [], ◌∷◌, ◌++◌, none, some, String, if◌then◌else◌, ◌==◌, string_comparable,
}
use prompto.Prelude.Int.{ℤ, pos, negsuc, neg_part}
use prompto.Prelude.Runes.{Runes, runes, sprintf, decimal, replace}
use prompto.Shell.Formats.{bash, zsh, elvish, xonsh}
use prompto.Terminal.Output.{Terminal}

abbrev pub windows_terminal : String
windows_terminal = "Windows Terminal"

abbrev pub warp : String
warp = "WarpTerminal"

abbrev signed : ℤ → Runes
signed (pos n) = decimal n
signed (negsuc n) = "-" ∷ decimal (neg_part (negsuc n))

-- The value of an environment variable is empty where it is not set.
unfoldable pub get_terminal_name : String → String → String
get_terminal_name term_program wt_session =
    if not (term_program == "")
    then term_program
    else if not (wt_session == "")
    then windows_terminal
    else "Unknown"

module _ (t : Terminal) where
  unfoldable pub change_line : ℤ → Runes
  change_line (pos n) =
      if t.plain then [] else sprintf (runes t.formats.linechange) (decimal n ∷ runes "B" ∷ [])
  change_line (negsuc n) =
      if t.plain
      then []
      else sprintf (runes t.formats.linechange) (decimal (neg_part (negsuc n)) ∷ runes "F" ∷ [])

  unfoldable pub pwd : String → Runes → Runes → Runes → Runes
  pwd pwd_type user_name host_name dir =
      if t.plain
      then []
      else if pwd_type == "osc7"
      then sprintf (runes t.formats.osc7) (host_name ∷ dir ∷ [])
      else if pwd_type == "osc51"
      then sprintf (runes t.formats.osc51) (user_name ∷ host_name ∷ dir ∷ [])
      else sprintf (runes t.formats.osc99) (dir ∷ [])

  unfoldable pub clear_after : Runes
  clear_after = if t.plain then [] else runes t.formats.clear_line ++ runes t.formats.clear_below

  unfoldable pub format_title : (Runes → Runes) → Runes → Runes
  format_title trim_ansi title =
      if t.shell == elvish || t.shell == xonsh
      then []
      else if t.shell == bash || t.shell == zsh
      then sprintf (runes t.formats.title) (
          replace (λ c. elim (t.formats.escape_sequences c) [ some e ↦ runes e | none ↦ c ∷ [] ])
            (trim_ansi title)
          ∷ [])
      else sprintf (runes t.formats.title) (trim_ansi title ∷ [])

  unfoldable pub escape_text : Runes → Runes
  escape_text txt = sprintf (runes t.formats.escape) (txt ∷ [])

  unfoldable pub prompt_start : Runes
  prompt_start = sprintf (runes t.formats.escape) (runes "\u{1b}]133;A\u{7}" ∷ [])

  unfoldable pub command_start : Runes
  command_start = sprintf (runes t.formats.escape) (runes "\u{1b}]133;B\u{7}" ∷ [])

  unfoldable pub command_finished : ℤ → Bool → Runes
  command_finished code ignore =
      if ignore
      then sprintf (runes t.formats.escape) (runes "\u{1b}]133;D\u{7}" ∷ [])
      else sprintf (runes t.formats.escape)
          (sprintf (runes "\u{1b}]133;D;%d\u{7}") (signed code ∷ []) ∷ [])

  unfoldable pub line_break : Runes
  line_break =
      sprintf (runes t.formats.left) (decimal 1000 ∷ [])
      ++ sprintf (runes t.formats.linechange) (decimal 1 ∷ runes "B" ∷ [])

-- Progress, in one terminal only.
unfoldable pub start_progress : String → Runes
start_progress program = if program == windows_terminal then runes "\u{1b}]9;4;3;0\u{7}" else []

unfoldable pub set_progress : String → ℤ → Runes
set_progress program percentage =
    if program == windows_terminal
    then sprintf (runes "\u{1b}]9;4;4;%d\u{7}") (signed percentage ∷ [])
    else []

unfoldable pub stop_progress : String → Runes
stop_progress program = if program == windows_terminal then runes "\u{1b}]9;4;0;0\u{7}" else []
