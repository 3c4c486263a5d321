-- ===== src/Shell/Quoting/RoundTrip.antt =====
-- That the readers of Shell/Quoting read back what src/shell quotes.
use Prim.Native.Char.{Char, code}
use mathlib.Core.List.{append-nil, append_assoc}
use text.Mathlib.TextEquality.{Char-path}
use prompto.Prelude.{
  arith, sym, none, Option, ◌⊎◌, true, All, Bool, eqb_iff, false, [], ◌∷◌, ◌++◌, some, ◌≡◌, refl,
  ap, ◌∙◌, inl, inr, Bool-cases,
}
use prompto.Prelude.Dict.{map_option}
use prompto.Prelude.Runes.{Runes, runes, is, replace}
use prompto.Shell.Quoting.{
  escape_rune, quote_posix_str, quote_fish_str, double_quote, quote_pwsh_or_elvish_str,
  read_escaped, read_doubled, unquote_posix, unquote_fish, unquote_pwsh, unquote_elvish,
  is_curly_quote, is_pwsh_quote,
}

read_escaped-escape_rune :
    (c : Char) (s : Runes)
    → read_escaped false (escape_rune c ++ s) ≡ map_option (λ x. c ∷ x) (read_escaped false s)
unfolding read_escaped escape_rune
read_escaped-escape_rune c s = elim (Bool-cases (is b'\\' c)) [
  | inl backslash ↦ rw (Char-path c "\\" ((eqb_iff (code c) b'\\').0 backslash)) refl
  | inr other ↦ elim (Bool-cases (is b'\'' c)) [
    | inl quote ↦ rw (Char-path c "'" ((eqb_iff (code c) b'\'').0 quote)) refl
    | inr plain ↦ rw (escape_rune, other, plain) (rw (read_escaped, plain, other) refl)
  ]
]

read_escaped-replace :
    (s : Runes) → read_escaped false (replace escape_rune s ++ runes "'") ≡ some s
unfolding read_escaped replace
read_escaped-replace [] = refl
read_escaped-replace (c ∷ s) =
    ap (read_escaped false) (append_assoc (escape_rune c) (replace escape_rune s) (runes "'"))
    ∙ read_escaped-escape_rune c (replace escape_rune s ++ runes "'")
    ∙ ap (map_option (λ x. c ∷ x)) (read_escaped-replace s)

-- By a predicate that takes `'` for a quote, a rune that is not another quote is read back.
read_doubled-double_quote :
    (is_quote : Char → Bool) (c : Char) (s : Runes)
    → is_quote "'" ≡ true
    → (is b'\'' c ≡ true) ⊎ (is_quote c ≡ false)
    → read_doubled is_quote false (double_quote c ++ s)
      ≡ map_option (λ x. c ∷ x) (read_doubled is_quote false s)
unfolding read_doubled double_quote
read_doubled-double_quote is_quote c s q h = elim (Bool-cases (is b'\'' c)) [
  | inl quote ↦
      rw (double_quote, quote)
        (rw (Char-path c "'" ((eqb_iff (code c) b'\'').0 quote)) (rw (read_doubled, q) refl))
  | inr plain ↦ elim h [
    | inl quote ↦ cc
    | inr other ↦ rw (double_quote, plain) (rw (read_doubled, other) refl)
  ]
]

map_option_same : (o : Option Runes) → o ≡ map_option (λ x. x) o
map_option_same none = refl
map_option_same (some x) = refl

map_option_twice :
    (c : Char) (s : Runes) (o : Option Runes)
    → map_option (λ x. c ∷ x) (map_option (λ x. s ++ x) o) ≡ map_option (λ x. c ∷ s ++ x) o
map_option_twice c s none = refl
map_option_twice c s (some x) = refl

-- Every rune is `'` or no quote.
abbrev OnlyPlain : (Char → Bool) → Runes → Type 0
OnlyPlain is_quote s = All (λ c. (is b'\'' c ≡ true) ⊎ (is_quote c ≡ false)) s

read_doubled-replace :
    (is_quote : Char → Bool) (s t : Runes)
    → is_quote "'" ≡ true
    → OnlyPlain is_quote s
    → read_doubled is_quote false (replace double_quote s ++ t)
      ≡ map_option (λ x. s ++ x) (read_doubled is_quote false t)
unfolding replace
read_doubled-replace is_quote [] t q h = map_option_same (read_doubled is_quote false t)
read_doubled-replace is_quote (c ∷ s) t q (h, hs) =
    ap (read_doubled is_quote false) (append_assoc (double_quote c) (replace double_quote s) t)
    ∙ read_doubled-double_quote is_quote c (replace double_quote s ++ t) q h
    ∙ ap (map_option (λ x. c ∷ x)) (read_doubled-replace is_quote s t q hs)
    ∙ map_option_twice c s (read_doubled is_quote false t)

elvish_quotes : (s : Runes) → OnlyPlain (is b'\'') s
elvish_quotes [] = tt
elvish_quotes (c ∷ s) = (
  elim (Bool-cases (is b'\'' c)) [ inl quote ↦ inl quote | inr other ↦ inr other ],
  elvish_quotes s,
)

pwsh_quotes : (s : Runes) → All (λ c. is_curly_quote c ≡ false) s → OnlyPlain is_pwsh_quote s
pwsh_quotes [] h = tt
pwsh_quotes (c ∷ s) (h, hs) = (
  elim (Bool-cases (is b'\'' c)) [ inl quote ↦ inl quote | inr other ↦ inr (rw (other, h) refl) ],
  pwsh_quotes s hs,
)

read_to_end :
    (is_quote : Char → Bool) (s : Runes)
    → is_quote "'" ≡ true
    → OnlyPlain is_quote s
    → read_doubled is_quote false (replace double_quote s ++ runes "'") ≡ some s
unfolding read_doubled
read_to_end is_quote s q h =
    read_doubled-replace is_quote s (runes "'") q h
    ∙ ap (map_option (λ x. s ++ x)) closed
    ∙ ap some (append-nil s)
  where
    closed : read_doubled is_quote false (runes "'") ≡ some []
    closed = rw q refl

-- Every text, an empty one and one with quotes and backslashes too, is read back by the readers for
-- bash and zsh, for fish and for Elvish from what the code quotes for that shell.
pub unquote-quote :
    (s : Runes)
    → (unquote_posix (quote_posix_str s) ≡ some s)
      × (unquote_fish (quote_fish_str s) ≡ some s)
      × (unquote_elvish (quote_pwsh_or_elvish_str s) ≡ some s)
unfolding unquote_posix unquote_fish unquote_elvish quote_posix_str quote_fish_str
    quote_pwsh_or_elvish_str read_escaped read_doubled
unquote-quote [] = (refl, refl, refl)
unquote-quote (c ∷ s) = (
  read_escaped-replace (c ∷ s),
  read_escaped-replace (c ∷ s),
  read_to_end (is b'\'') (c ∷ s) refl (elvish_quotes (c ∷ s)),
)

-- What the code quotes for PowerShell, in front of a rest without its empty case.
quote_pwsh :
    (c : Char) (s : Runes)
    → unquote_pwsh (quote_pwsh_or_elvish_str (c ∷ s))
      ≡ read_doubled is_pwsh_quote false (replace double_quote (c ∷ s) ++ runes "'")
unfolding unquote_pwsh quote_pwsh_or_elvish_str
quote_pwsh c s = refl

read_pwsh :
    (s : Runes)
    → All (λ d. is_curly_quote d ≡ false) s
    → unquote_pwsh (quote_pwsh_or_elvish_str s) ≡ some s
unfolding read_doubled unquote_pwsh quote_pwsh_or_elvish_str
read_pwsh [] h = refl
read_pwsh (c ∷ s) h = read_to_end is_pwsh_quote (c ∷ s) refl (pwsh_quotes (c ∷ s) h)

replace-append : (f : Char → Runes) (s t : Runes) → replace f (s ++ t) ≡ replace f s ++ replace f t
unfolding replace
replace-append f [] t = refl
replace-append f (c ∷ s) t =
    ap (λ r. f c ++ r) (replace-append f s t) ∙ sym (append_assoc (f c) (replace f s) (replace f t))

module _ (t : Runes) (curly c : Char) (k : is_curly_quote curly ≡ true)
    (n : is_pwsh_quote c ≡ false) where
  curly_refused :
      read_doubled is_pwsh_quote false (replace double_quote (curly ∷ c ∷ t) ++ runes "'") ≡ none
  unfolding read_doubled replace double_quote
  curly_refused = rw (curly_plain, c_plain) (rw (read_doubled, curly_quote) (rw n refl))
    where
      curly_plain : is b'\'' curly ≡ false
      curly_plain = ground arith

      curly_quote : is_pwsh_quote curly ≡ true
      curly_quote = ground arith

      c_plain : is b'\'' c ≡ false
      c_plain = ground arith

  refused :
      (s : Runes)
      → All (λ d. is_curly_quote d ≡ false) s
      → unquote_pwsh (quote_pwsh_or_elvish_str (s ++ curly ∷ c ∷ t)) ≡ none
  refused [] h = quote_pwsh curly (c ∷ t) ∙ curly_refused
  refused (d ∷ s) h =
      let rest = curly ∷ c ∷ t in
      quote_pwsh d (s ++ rest)
      ∙ ap (λ r. read_doubled is_pwsh_quote false (r ++ runes "'"))
          (replace-append double_quote (d ∷ s) rest)
      ∙ ap (read_doubled is_pwsh_quote false)
          (append_assoc (replace double_quote (d ∷ s)) (replace double_quote rest) (runes "'"))
      ∙ read_doubled-replace is_pwsh_quote (d ∷ s) (replace double_quote rest ++ runes "'") refl
          (pwsh_quotes (d ∷ s) h)
      ∙ ap (map_option (λ x. d ∷ s ++ x)) curly_refused

-- Let a text have no quote from U+2018 to U+201B. The reader for PowerShell reads it back from what the
-- code quotes for that shell. It refuses what the code quotes for a text that goes on with such a
-- quote and, behind it, with a rune that is no quote there: it takes the string to end before that rune.
pub unquote_pwsh-quote :
    (s t : Runes) (curly c : Char)
    → All (λ d. is_curly_quote d ≡ false) s
    → is_curly_quote curly ≡ true
    → is_pwsh_quote c ≡ false
    → (unquote_pwsh (quote_pwsh_or_elvish_str s) ≡ some s)
      × (unquote_pwsh (quote_pwsh_or_elvish_str (s ++ curly ∷ c ∷ t)) ≡ none)
unquote_pwsh-quote s t curly c h k n = (read_pwsh s h, refused t curly c k n s h)
