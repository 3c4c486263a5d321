-- ===== src/Shell/Tests.antt =====
-- Quoting at a concrete text.
use prompto.Prelude.{◌≡◌, some, none, refl, false, All, ◌∷◌, ◌++◌, arith}
use prompto.Prelude.Runes.{Runes, runes, replace}
use prompto.Shell.Quoting.{
  quote_posix_str, quote_fish_str, quote_pwsh_or_elvish_str, unquote_posix, unquote_fish,
  unquote_pwsh, escape_rune, unquote_elvish, is_curly_quote,
}
use prompto.Shell.Quoting.RoundTrip.{unquote-quote, unquote_pwsh-quote}

abbrev path : Runes
path = runes "/home/o'neil/a\\b"

quoted : quote_posix_str path ≡ runes "$'/home/o\\'neil/a\\\\b'"
unfolding quote_posix_str replace escape_rune
quoted = refl

unquote-quote_example :
    (unquote_posix (quote_posix_str path) ≡ some path)
    × (unquote_fish (quote_fish_str path) ≡ some path)
    × (unquote_elvish (quote_pwsh_or_elvish_str path) ≡ some path)
unquote-quote_example = unquote-quote path

-- The quote of U+2019 in a path.
abbrev curly_path : Runes
curly_path = path ++ "’" ∷ "s" ∷ runes "/c"

unquote_pwsh-quote_example :
    (unquote_pwsh (quote_pwsh_or_elvish_str path) ≡ some path)
    × (unquote_pwsh (quote_pwsh_or_elvish_str curly_path) ≡ none)
unquote_pwsh-quote_example = unquote_pwsh-quote path (runes "/c") "’" "s" no_curly refl refl
  where
    no_curly : All (λ c. is_curly_quote c ≡ false) path
    no_curly = ground arith
