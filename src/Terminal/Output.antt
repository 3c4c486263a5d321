-- ===== src/Terminal/Output.antt =====
-- src/terminal/writer.go: the package's settings, its state, and how runes and escape sequences reach the
-- builder. What lies outside of the code is part of the settings: the width of a rune, from
-- go-runewidth. So is what resolving a colour keyword ends in, which `Color.Keywords.resolve` must
-- come to: the code runs forever where that is stuck.
use Prim.Native.Char.{Char}
use prompto.Prelude.{
  ℕ, suc, ◌+◌, Bool, false, not, ◌&&◌, ◌||◌, List, [], ◌∷◌, ◌++◌, Option, none, some, String,
  if◌then◌else◌, ◌==◌, string_comparable, ◌≡◌,
}
use prompto.Prelude.Outcome.{done}
use prompto.Prelude.Runes.{Runes, runes, is, behind, sprintf}
use prompto.Color.Keywords.{Set, resolve}
use prompto.Color.Ansi.{Colors}
use prompto.Shell.Formats.{Formats, zsh, bash}
use prompto.Terminal.History.{History}

pub record Terminal : Type 0 where
  pub current_colors : Option Set
  pub parent_colors : Option (List (Option Set))
  pub background_color : String
  pub colors : Colors
  pub plain : Bool
  pub interactive : Bool
  pub shell : String
  pub formats : Formats
  pub rune_width : Char → ℕ
  pub resolved : String → String
  pub resolves :
      (c : String) → (fuel : ℕ) × (resolve fuel current_colors parent_colors c ≡ done (resolved c))

-- The variables that writing changes; `hyperlink_text_position` is local to `Write`.
pub record Writer : Type 0 where
  pub builder : Runes
  pub length : ℕ
  pub foreground_color : String
  pub background_color : String
  pub current_color : History
  pub is_transparent : Bool
  pub is_invisible : Bool
  pub is_hyperlink : Bool
  pub hyperlink_text_position : ℕ

abbrev pub new_writer : Writer
new_writer = record {
  builder = [];
  length = 0;
  foreground_color = "";
  background_color = "";
  current_color = [];
  is_transparent = false;
  is_invisible = false;
  is_hyperlink = false;
  hyperlink_text_position = 0;
}

-- `builder.WriteString`.
unfoldable pub emit : Runes → Writer → Writer
emit txt w = record w { builder = w.builder ++ txt }

-- Where the closing brace of a token stands, counted from the first of the given runes.
unfoldable pub closing_brace : ℕ → Runes → Option ℕ
closing_brace i [] = none
closing_brace i (c ∷ s) = let later = closing_brace (suc i) s in if is b'}' c then some i else later

unfoldable pub clock_token_behind : Option Runes → Option ℕ
clock_token_behind none = none
clock_token_behind (some s) = closing_brace 3 s

module _ (t : Terminal) where
  unfoldable pub write_escaped_ansi_string : Runes → Writer → Writer
  write_escaped_ansi_string txt w =
      if t.plain
      then w
      else if t.formats.escape == ""
      then emit txt w
      else emit (sprintf (runes t.formats.escape) (txt ∷ [])) w

  unfoldable pub write_raw : Char → Writer → Writer
  unfolding emit
  write_raw s w =
      if w.is_invisible
      then w
      else if w.is_hyperlink
      then emit (s ∷ []) w
      else emit (s ∷ []) (record w { length = w.length + t.rune_width s })

  -- What stands in the builder for a counted rune.
  unfoldable pub escaped : Char → Runes
  escaped s =
      if not t.interactive && not t.plain
      then of_sequence (t.formats.escape_sequences s)
      else s ∷ []
    where
      of_sequence : Option String → Runes
      of_sequence none = s ∷ []
      of_sequence (some sequence) = runes sequence

  unfoldable pub write : Char → Writer → Writer
  unfolding emit escaped
  write s w =
      if w.is_invisible
      then w
      else if w.is_hyperlink
      then emit (s ∷ []) w
      else emit (escaped s) (record w { length = w.length + t.rune_width s })

  -- `shellClockTokenEnd` for the runes from the given position on; the position of the token's end is
  -- counted from there.
  unfoldable pub shell_clock_token_end : Runes → Writer → Option ℕ
  unfolding clock_token_behind closing_brace
  shell_clock_token_end s w =
      if t.interactive || t.plain || w.is_hyperlink
      then none
      else if t.shell == zsh
      then clock_token_behind (behind (runes "%D{") s)
      else if t.shell == bash
      then clock_token_behind (behind (runes "\\D{") s)
      else none

  unfoldable pub write_all_raw : Runes → Writer → Writer
  write_all_raw [] w = w
  write_all_raw (s ∷ rest) w = write_all_raw rest (write_raw s w)
