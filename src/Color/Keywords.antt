-- ===== src/Color/Keywords.antt =====
-- src/color/keywords.go: colours that stand for another colour, of the segment or of the ones before.
pub mod Resolution
pub mod Rounds
use prompto.Prelude.{
  ℕ, zero, suc, Bool, true, false, ◌||◌, ◌&&◌, List, [], ◌∷◌, Option, none, some, String,
  if◌then◌else◌, ◌==◌, string_comparable,
}
use prompto.Prelude.Outcome.{Outcome, done, stuck}

-- `Set` of src/color/colors.go.
pub record Set : Type 0 where
  pub background : String
  pub foreground : String

abbrev pub transparent : String
transparent = "transparent"

abbrev pub parent_background : String
parent_background = "parentBackground"

abbrev pub parent_foreground : String
parent_foreground = "parentForeground"

abbrev pub background_keyword : String
background_keyword = "background"

abbrev pub foreground_keyword : String
foreground_keyword = "foreground"

unfoldable pub is_keyword : String → Bool
is_keyword color =
    color == transparent
    || color == parent_background
    || color == parent_foreground
    || color == background_keyword
    || color == foreground_keyword

abbrev or_transparent : String → String
or_transparent keyword = if keyword == "" then transparent else keyword

-- The loop over the parents; a missing one is `nil`.
unfoldable pub resolve_parent_color : List (Option Set) → String → String
resolve_parent_color [] keyword = or_transparent keyword
resolve_parent_color (none ∷ parents) keyword = transparent
resolve_parent_color (some parent ∷ parents) keyword =
    let of_background = resolve_parent_color parents parent.background in
    let of_foreground = resolve_parent_color parents parent.foreground in
    if keyword == parent_background
    then of_background
    else if keyword == parent_foreground
    then of_foreground
    else or_transparent keyword

-- The cases of `resolveKeyword` for a parent's colour; `parents` is `none` for a nil slice.
unfoldable pub resolve_of_parents : Option (List (Option Set)) → String → String
unfolding resolve_parent_color
resolve_of_parents none keyword = transparent
resolve_of_parents (some ps) keyword =
    if keyword == parent_background || keyword == parent_foreground
    then resolve_parent_color ps keyword
    else transparent

unfoldable pub resolve_keyword : Option Set → Option (List (Option Set)) → String → String
unfolding resolve_of_parents
resolve_keyword none parents keyword = resolve_of_parents parents keyword
resolve_keyword (some set) parents keyword =
    if keyword == background_keyword
    then set.background
    else if keyword == foreground_keyword
    then set.foreground
    else resolve_of_parents parents keyword

-- `Resolve`, with fuel for its loop.
unfoldable pub resolve : ℕ → Option Set → Option (List (Option Set)) → String → Outcome String
unfolding is_keyword resolve_keyword
resolve zero current parents color = stuck
resolve (suc fuel) current parents color =
    let resolved = resolve_keyword current parents color in
    let again = resolve fuel current parents resolved in
    if is_keyword color then (if resolved == color then done color else again) else done color
