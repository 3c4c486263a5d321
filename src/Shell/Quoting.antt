-- ===== src/Shell/Quoting.antt =====
-- How a text is quoted for a shell's init script: src/shell/bash.go, fish.go and pwsh.go; and how the shells
-- read a quoted text back, in readers written here from the rules of each shell.
pub mod RoundTrip
use Prim.Native.Char.{Char, code}
use prompto.Prelude.{
  Bool, true, false, ◌||◌, ◌&&◌, leb, [], ◌∷◌, ◌++◌, Option, none, some, if◌then◌else◌,
}
use prompto.Prelude.Dict.{map_option}
use prompto.Prelude.Runes.{Runes, runes, is, is_empty, replace}

-- The backslash and the quote behind a backslash, in the place of the two.
unfoldable pub escape_rune : Char → Runes
escape_rune c = if is b'\\' c then runes "\\\\" else if is b'\'' c then runes "\\'" else c ∷ []

unfoldable pub quote_posix_str : Runes → Runes
quote_posix_str str =
    if is_empty str then runes "''" else runes "$'" ++ replace escape_rune str ++ runes "'"

unfoldable pub quote_fish_str : Runes → Runes
quote_fish_str str =
    if is_empty str then runes "''" else runes "'" ++ replace escape_rune str ++ runes "'"

unfoldable pub double_quote : Char → Runes
double_quote c = if is b'\'' c then runes "''" else c ∷ []

unfoldable pub quote_pwsh_or_elvish_str : Runes → Runes
quote_pwsh_or_elvish_str str =
    if is_empty str then runes "''" else runes "'" ++ replace double_quote str ++ runes "'"

-- A string with backslash escapes, up to its closing quote, which must be the last rune. The flag is
-- set behind a backslash; escapes that quoting does not use are refused.
unfoldable pub read_escaped : Bool → Runes → Option Runes
read_escaped pending [] = none
read_escaped true (c ∷ s) =
    let rest = map_option (λ x. c ∷ x) (read_escaped false s) in
    if is b'\\' c || is b'\'' c then rest else none
read_escaped false (c ∷ s) =
    let escape = read_escaped true s in
    let rest = map_option (λ x. c ∷ x) (read_escaped false s) in
    if is b'\'' c
    then (if is_empty s then some [] else none)
    else if is b'\\' c
    then escape
    else rest

-- The quotes that PowerShell takes for a single one: `'`, and those from U+2018 to U+201B.
abbrev pub is_curly_quote : Char → Bool
is_curly_quote c = leb 0x2018 (code c) && leb (code c) 0x201b

abbrev pub is_pwsh_quote : Char → Bool
is_pwsh_quote c = is b'\'' c || is_curly_quote c

-- A string in which a quote is written twice, by what is a quote. The flag is set behind a quote that
-- opens a pair, if another one follows, or else has closed the string. Of a pair the second is read.
unfoldable pub read_doubled : (Char → Bool) → Bool → Runes → Option Runes
read_doubled is_quote true [] = some []
read_doubled is_quote false [] = none
read_doubled is_quote true (c ∷ s) =
    let rest = map_option (λ x. c ∷ x) (read_doubled is_quote false s) in
    if is_quote c then rest else none
read_doubled is_quote false (c ∷ s) =
    let quote = read_doubled is_quote true s in
    let rest = map_option (λ x. c ∷ x) (read_doubled is_quote false s) in
    if is_quote c then quote else rest

-- One word of the shells, if it is a quoted string: `'…'` without escapes is an empty string here.
unfoldable pub unquote_posix : Runes → Option Runes
unquote_posix [] = none
unquote_posix (a ∷ s) = if is b'$' a then in_dollar s else if is b'\'' a then closing s else none
  where
    in_dollar : Runes → Option Runes
    in_dollar [] = none
    in_dollar (b ∷ rest) = if is b'\'' b then read_escaped false rest else none

    closing : Runes → Option Runes
    closing [] = none
    closing (b ∷ rest) = if is b'\'' b then (if is_empty rest then some [] else none) else none

unfoldable pub unquote_fish : Runes → Option Runes
unquote_fish [] = none
unquote_fish (a ∷ s) = if is b'\'' a then read_escaped false s else none

unfoldable pub unquote_elvish : Runes → Option Runes
unquote_elvish [] = none
unquote_elvish (a ∷ s) = if is b'\'' a then read_doubled (is b'\'') false s else none

unfoldable pub unquote_pwsh : Runes → Option Runes
unquote_pwsh [] = none
unquote_pwsh (a ∷ s) = if is_pwsh_quote a then read_doubled is_pwsh_quote false s else none
