-- ===== src/Terminal/History.antt =====
-- `History` of src/color/colors.go: the stack of colours in force, the newest first here.
use prompto.Prelude.{ℕ, ◌&&◌, List, [], ◌∷◌, String, if◌then◌else◌, ◌==◌, string_comparable, length}
use prompto.Color.Keywords.{Set}
use prompto.Color.Ansi.{empty_color}

abbrev pub History : Type 0
History = List Set

unfoldable pub len : History → ℕ
len c = length c

unfoldable pub add : String → String → History → History
add background foreground [] = record { background = background; foreground = foreground } ∷ []
add background foreground (last ∷ older) =
    if (last.foreground == foreground) && (last.background == background)
    then last ∷ older
    else record { background = background; foreground = foreground } ∷ last ∷ older

unfoldable pub pop : History → History
pop [] = []
pop (last ∷ older) = older

unfoldable pub background : History → String
background [] = empty_color
background (last ∷ older) = last.background

unfoldable pub foreground : History → String
foreground [] = empty_color
foreground (last ∷ older) = last.foreground
