-- ===== src/Shell/Formats.antt =====
-- src/shell/formats.go: how a shell wants its escape sequences.
use Prim.Native.Char.{Char}
use prompto.Prelude.{Option, none, some, String, if◌then◌else◌, ◌==◌, string_comparable}
use prompto.Prelude.Runes.{is}

abbrev pub zsh : String
zsh = "zsh"

abbrev pub bash : String
bash = "bash"

abbrev pub pwsh : String
pwsh = "pwsh"

abbrev pub fish : String
fish = "fish"

abbrev pub elvish : String
elvish = "elvish"

abbrev pub xonsh : String
xonsh = "xonsh"

pub record Formats : Type 0 where
  pub escape : String
  pub left : String
  pub linechange : String
  pub clear_below : String
  pub clear_line : String
  pub title : String
  pub save_cursor_position : String
  pub restore_cursor_position : String
  pub osc99 : String
  pub osc7 : String
  pub osc51 : String
  pub escape_sequences : Char → Option String
  pub hyperlink_start : String
  pub hyperlink_center : String
  pub hyperlink_end : String
  pub iterm_prompt_mark : String
  pub iterm_current_dir : String
  pub iterm_remote_host : String

abbrev pub bash_formats : Formats
bash_formats = record {
  escape = "\\[%s\\]";
  linechange = "\\[\u{1b}[%d%s\\]";
  left = "\\[\u{1b}[%dD\\]";
  clear_below = "\\[\u{1b}[0J\\]";
  clear_line = "\\[\u{1b}[K\\]";
  save_cursor_position = "\\[\u{1b}7\\]";
  restore_cursor_position = "\\[\u{1b}8\\]";
  title = "\\[\u{1b}]0;%s\u{7}\\]";
  hyperlink_start = "\\[\u{1b}]8;;";
  hyperlink_center = "\u{1b}\\\\\\]";
  hyperlink_end = "\\[\u{1b}]8;;\u{1b}\\\\\\]";
  osc99 = "\\[\u{1b}]9;9;%s\u{1b}\\\\\\]";
  osc7 = "\\[\u{1b}]7;file://%s/%s\u{1b}\\\\\\]";
  osc51 = "\\[\u{1b}]51;A;%s@%s:%s\u{1b}\\\\\\]";
  iterm_prompt_mark = "\\[$(iterm2_prompt_mark)\\]";
  iterm_current_dir = "\\[\u{1b}]1337;CurrentDir=%s\u{7}\\]";
  iterm_remote_host = "\\[\u{1b}]1337;RemoteHost=%s@%s\u{7}\\]";
  escape_sequences = λ c. if is b'\\' c then some "\\\\" else none;
}

abbrev pub zsh_formats : Formats
zsh_formats = record {
  escape = "%%{%s%%}";
  linechange = "%%{\u{1b}[%d%s%%}";
  left = "%%{\u{1b}[%dD%%}";
  clear_below = "%{\u{1b}[0J%}";
  clear_line = "%{\u{1b}[K%}";
  save_cursor_position = "%{\u{1b}7%}";
  restore_cursor_position = "%{\u{1b}8%}";
  title = "%%{\u{1b}]0;%s\u{7}%%}";
  hyperlink_start = "%{\u{1b}]8;;";
  hyperlink_center = "\u{1b}\\%}";
  hyperlink_end = "%{\u{1b}]8;;\u{1b}\\%}";
  osc99 = "%%{\u{1b}]9;9;%s\u{1b}\\%%}";
  osc7 = "%%{\u{1b}]7;file://%s/%s\u{1b}\\%%}";
  osc51 = "%%{\u{1b}]51;A%s@%s:%s\u{1b}\\%%}";
  iterm_prompt_mark = "%{$(iterm2_prompt_mark)%}";
  iterm_current_dir = "%%{\u{1b}]1337;CurrentDir=%s\u{7}%%}";
  iterm_remote_host = "%%{\u{1b}]1337;RemoteHost=%s@%s\u{7}%%}";
  escape_sequences = λ c. if is b'%' c then some "%%" else none;
}

-- Every other shell.
abbrev pub plain_formats : Formats
plain_formats = record {
  escape = "%s";
  linechange = "\u{1b}[%d%s";
  left = "\u{1b}[%dD";
  clear_below = "\u{1b}[0J";
  clear_line = "\u{1b}[K";
  save_cursor_position = "\u{1b}7";
  restore_cursor_position = "\u{1b}8";
  title = "\u{1b}]0;%s\u{7}";
  hyperlink_start = "\u{1b}]8;;";
  hyperlink_center = "\u{1b}\\";
  hyperlink_end = "\u{1b}]8;;\u{1b}\\";
  osc99 = "\u{1b}]9;9;%s\u{1b}\\";
  osc7 = "\u{1b}]7;file://%s/%s\u{1b}\\";
  osc51 = "\u{1b}]51;A%s@%s:%s\u{1b}\\";
  iterm_prompt_mark = "";
  iterm_current_dir = "\u{1b}]1337;CurrentDir=%s\u{7}";
  iterm_remote_host = "\u{1b}]1337;RemoteHost=%s@%s\u{7}";
  escape_sequences = λ c. none;
}

unfoldable pub get_formats : String → Formats
get_formats shell =
    if shell == bash then bash_formats else if shell == zsh then zsh_formats else plain_formats
