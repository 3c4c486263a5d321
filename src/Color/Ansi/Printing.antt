-- ===== src/Color/Ansi/Printing.antt =====
-- `String` and `ParseString` of a `Set` in src/color/colors.go.
use prompto.Prelude.{◌≡◌, refl}
use prompto.Prelude.Runes.{runes, cut-Lacks, cut-append, Lacks, text_of-runes}
use prompto.Color.Keywords.{Set}
use prompto.Color.Ansi.{parse_string, to_string}

-- Colours that hold no bar are read back as they were printed, whatever the set held before.
pub parse_string-to_string :
    (before c : Set)
    → Lacks b'|' (runes c.foreground)
    → Lacks b'|' (runes c.background)
    → parse_string before (to_string c) ≡ c
unfolding parse_string to_string
parse_string-to_string before c hf hb =
    rw (cut-append "|" (runes c.foreground) (runes c.background) hf) (
      rw (cut-Lacks b'|' (runes c.background) hb)
        (rw (text_of-runes c.foreground, text_of-runes c.background) refl))
