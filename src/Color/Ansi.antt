-- ===== src/Color/Ansi.antt =====
-- src/color/colors.go: from the names of colours to ANSI codes. The code's package gookit/color is a
-- parameter: the codes it gives for one of 256 colours, and for a hexadecimal colour in true colour
-- and in 256 colours, where the text is one.
pub mod Cached
pub mod Printing
use Prim.Native.Char.{Char, code}
use prompto.Prelude.{
  ℕ, ◌+◌, ◌-◌, ◌*◌, Bool, true, false, not, List, [], ◌∷◌, ◌++◌, Option, none, some, String,
  if◌then◌else◌, ◌==◌, string_comparable, ltb, leb,
}
use prompto.Prelude.Dict.{Dict, lookup}
use prompto.Prelude.Outcome.{done, panic, stuck}
use prompto.Prelude.Runes.{Runes, runes, text_of, behind, cut, is}
use prompto.Color.Keywords.{Set, transparent}
use prompto.Color.Palette.{
  Palette, resolve_color, color, palette_key_error, palette_recursive_key_error,
}

abbrev pub empty_color : String
empty_color = ""

unfoldable pub to_string : Set → Runes
to_string c = runes c.foreground ++ "|" ∷ runes c.background

-- `strings.Split` into exactly two parts at the bar.
unfoldable pub parse_string : Set → Runes → Set
parse_string c colors =
    let (foreground, is_split, rest) = cut b'|' colors in
    let (background, is_longer, more) = cut b'|' rest in
    if is_split
    then (if is_longer
        then c
        else record { background = text_of background; foreground = text_of foreground })
    else c

unfoldable pub is_empty_color : String → Bool
is_empty_color c = c == empty_color

unfoldable pub is_transparent : String → Bool
is_transparent c = c == transparent

unfoldable pub is_clear : String → Bool
is_clear c = if c == transparent then true else c == empty_color

unfoldable pub to_foreground : String → String
to_foreground c = elim (behind (runes "38;") (runes c)) [
  | some rest ↦ text_of (runes "48;" ++ rest)
  | none ↦ c
]

-- The interface `String` of the package.
pub record Colors : Type 0 where
  pub to_ansi : String → Bool → String
  pub resolve : String → Option String

abbrev pub accent_keyword : String
accent_keyword = "accent"

abbrev pub ansi_color_codes : Dict String (String × String)
ansi_color_codes =
    ("black", ("30", "40"))
    ∷ ("red", ("31", "41"))
    ∷ ("green", ("32", "42"))
    ∷ ("yellow", ("33", "43"))
    ∷ ("blue", ("34", "44"))
    ∷ ("magenta", ("35", "45"))
    ∷ ("cyan", ("36", "46"))
    ∷ ("white", ("37", "47"))
    ∷ ("default", ("39", "49"))
    ∷ ("darkGray", ("90", "100"))
    ∷ ("lightRed", ("91", "101"))
    ∷ ("lightGreen", ("92", "102"))
    ∷ ("lightYellow", ("93", "103"))
    ∷ ("lightBlue", ("94", "104"))
    ∷ ("lightMagenta", ("95", "105"))
    ∷ ("lightCyan", ("96", "106"))
    ∷ ("lightWhite", ("97", "107"))
    ∷ []

unfoldable pub get_ansi_color_from_name : String → Bool → Option String
get_ansi_color_from_name name is_background = elim (lookup name ansi_color_codes) [
  | some (foreground, background) ↦ some (if is_background then background else foreground)
  | none ↦ none
]

unfoldable pub is_ansi_color_name : String → Bool
is_ansi_color_name name = elim (lookup name ansi_color_codes) [ some codes ↦ true | none ↦ false ]

abbrev digit_value : Char → Option ℕ
digit_value c =
    if ltb (code c) b'0' then none else if leb (code c) b'9' then some (code c - b'0') else none

-- `strconv.ParseUint` in base 10; a number of more than 64 bits, an error there, is above 255 here.
unfoldable pub parse_uint : ℕ → Runes → Option ℕ
parse_uint value [] = some value
parse_uint value (c ∷ s) = elim (digit_value c) [
  | some d ↦ parse_uint (value * 10 + d) s
  | none ↦ none
]

pub record Gookit : Type 0 where
  pub c256 : ℕ → Bool → String
  pub hex : String → Bool → Option (String × String)

-- `Defaults.ToAnsi`. The last attempt of the code, to read a text that begins with `#` as a number,
-- always fails and is left out.
module _ (host : Gookit) (true_color : Bool) where
  unfoldable pub default_to_ansi : Option Set → String → Bool → String
  unfolding is_transparent get_ansi_color_from_name parse_uint
  default_to_ansi accent c is_background =
      if c == empty_color
      then empty_color
      else if is_transparent c
      then c
      else if c == accent_keyword
      then of_accent accent
      else named (get_ansi_color_from_name c is_background)
    where
      of_accent : Option Set → String
      of_accent none = empty_color
      of_accent (some a) = if is_background then a.background else a.foreground

      of_number : Option ℕ → String
      of_number none = empty_color
      of_number (some n) = if leb n 255 then host.c256 n is_background else empty_color

      of_hex : Option (String × String) → String
      of_hex none = empty_color
      of_hex (some (full, short)) = if true_color then full else short

      coded : Runes → String
      coded [] = empty_color
      coded (d ∷ ds) =
          if is b'#' d then of_hex (host.hex c is_background) else of_number (parse_uint 0 (d ∷ ds))

      named : Option String → String
      named (some code) = code
      named none = coded (runes c)

  unfoldable pub defaults : Option Set → Colors
  unfolding default_to_ansi
  defaults accent = record { to_ansi = default_to_ansi accent; resolve = λ c. some c }

-- `PaletteColors`: an error of the palette is no color.
unfoldable pub palette_colors : Palette → Colors → Colors
palette_colors palette inner = record {
  to_ansi = λ c is_background. elim (look c) [
    | some found ↦ inner.to_ansi found is_background
    | none ↦ empty_color
  ];
  resolve = look;
}
  where
    look : String → Option String
    look c = elim (resolve_color palette c) [
      | done (color found) ↦ some found
      | done (palette_key_error k) ↦ none
      | done (palette_recursive_key_error k v d) ↦ none
      | panic ↦ none
      | stuck ↦ none
    ]
