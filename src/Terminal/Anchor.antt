-- ===== src/Terminal/Anchor.antt =====
-- The anchors of src/terminal/writer.go: the expression `AnchorRegex` and the known styles.
pub mod Reading
use Prim.Native.Char.{Char, code}
use prompto.Prelude.{
  ℕ, suc, ◌+◌, Bool, true, false, List, [], ◌∷◌, ◌++◌, Option, none, some, String, if◌then◌else◌,
}
use prompto.Prelude.Runes.{Runes, runes, is, cut}

-- The text of `BG` and `FG` is empty where the group takes no part in the match.
pub record Match : Type 0 where
  pub anchor : Runes
  pub fg : Runes
  pub bg : Runes

-- The runes before the first `<` or `>`, where that is a `>`. No shorter run of them can be followed by
-- `>`, so the greedy groups of the expression never give a rune back.
unfoldable pub anchor_body : Runes → Option Runes
anchor_body [] = none
anchor_body (c ∷ s) = elim (is b'>' c) [
  | true ↦ some []
  | false ↦ elim (is b'<' c) [
    | true ↦ none
    | false ↦ elim (anchor_body s) [ some body ↦ some (c ∷ body) | none ↦ none ]
  ]
]

-- `FG` takes what stands before the first comma, `BG` what stands behind it.
abbrev of_body : Option Runes → Option Match
of_body none = none
of_body (some body) =
    let (before, has_comma, after) = cut b',' body in
    some (record { anchor = runes "<" ++ body ++ runes ">"; fg = before; bg = after })

-- `FindNamedRegexMatch(AnchorRegex, txt)`.
unfoldable pub find_anchor : Runes → Option Match
unfolding anchor_body cut
find_anchor [] = none
find_anchor (c ∷ s) = if is b'<' c then of_body (anchor_body s) else none

pub record Style : Type 0 where
  pub anchor_start : String
  pub anchor_end : String
  pub start : String
  pub stop : String

abbrev pub known_styles : List Style
known_styles =
    record { anchor_start = "<b>"; anchor_end = "</b>"; start = "\u{1b}[1m"; stop = "\u{1b}[22m" }
    ∷ record { anchor_start = "<u>"; anchor_end = "</u>"; start = "\u{1b}[4m"; stop = "\u{1b}[24m" }
    ∷ record {
      anchor_start = "<o>";
      anchor_end = "</o>";
      start = "\u{1b}[53m";
      stop = "\u{1b}[55m";
    }
    ∷ record { anchor_start = "<i>"; anchor_end = "</i>"; start = "\u{1b}[3m"; stop = "\u{1b}[23m" }
    ∷ record { anchor_start = "<s>"; anchor_end = "</s>"; start = "\u{1b}[9m"; stop = "\u{1b}[29m" }
    ∷ record { anchor_start = "<d>"; anchor_end = "</d>"; start = "\u{1b}[2m"; stop = "\u{1b}[22m" }
    ∷ record { anchor_start = "<f>"; anchor_end = "</f>"; start = "\u{1b}[5m"; stop = "\u{1b}[25m" }
    ∷ record { anchor_start = "<r>"; anchor_end = "</r>"; start = "\u{1b}[7m"; stop = "\u{1b}[27m" }
    ∷ []

abbrev pub reset_anchor_end : String
reset_anchor_end = "</>"

abbrev pub reset_end : String
reset_end = "\u{1b}[0m"

abbrev pub background_style_end : String
background_style_end = "\u{1b}[49m"

abbrev pub hyper_link_start : String
hyper_link_start = "<LINK>"

abbrev pub hyper_link_end : String
hyper_link_end = "</LINK>"

abbrev pub hyper_link_text : String
hyper_link_text = "<TEXT>"

abbrev pub hyper_link_text_end : String
hyper_link_text_end = "</TEXT>"

abbrev pub empty_anchor : String
empty_anchor = "<>"
