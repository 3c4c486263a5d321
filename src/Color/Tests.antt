-- ===== src/Color/Tests.antt =====
-- The theorems about colours at concrete inputs.
use text.Mathlib.TextEquality.{eq_iff}
use prompto.Prelude.{
  ◌≢◌, false, ◌==◌, [], ◌∷◌, some, none, String, ◌≡◌, refl, string_comparable, arith,
}
use prompto.Prelude.Outcome.{done, stuck}
use prompto.Prelude.Dict.{lookup}
use prompto.Color.Palette.{
  Palette, resolve_color, Resolved, maybe_resolve_color, resolve_at, as_palette_key,
}
use prompto.Color.Palette.Resolution.{Answers, resolve_color-Answers}
use prompto.Color.Keywords.{
  parent_foreground, parent_background, Set, resolve, background_keyword, foreground_keyword,
}
use prompto.Color.Keywords.Resolution.{IsSettled, IsOutward, swapped, swapped_loops}
use prompto.Color.Keywords.Rounds.{Ends, resolve-Ends}

abbrev palette : Palette
palette = ("accent", "p:blue") ∷ ("blue", "#0000FF") ∷ ("self", "p:self") ∷ []

resolve_color-Answers_example :
    (r : Resolved) × (resolve_color palette "p:accent" ≡ done r) × Answers palette 4 "p:accent" r
resolve_color-Answers_example = resolve_color-Answers palette "p:accent"

-- A colour that names itself resolves to no colour.
self_reference : maybe_resolve_color palette "p:self" ≡ done ""
unfolding maybe_resolve_color resolve_at as_palette_key lookup
self_reference = refl

swapped_loops_example :
    (resolve 1000 (some swapped) none background_keyword ≡ stuck)
    × (resolve 1000 (some swapped) none foreground_keyword ≡ stuck)
swapped_loops_example = swapped_loops 1000 none

abbrev plain_set : Set
plain_set = record { background = "blue"; foreground = "white" }

ne : (a b : String) → (a == b) ≡ false → a ≢ b
ne a b h e = ground (arith, eq_iff a b)

outward :
    (c : String)
    → (c == background_keyword) ≡ false
    → (c == foreground_keyword) ≡ false
    → IsOutward c
outward c h k = (ne c background_keyword h, ne c foreground_keyword k)

settled :
    (c : String)
    → (c == parent_background) ≡ false
    → (c == parent_foreground) ≡ false
    → IsOutward c
    → IsSettled c
settled c h k o = (ne c parent_background h, ne c parent_foreground k, o)

resolve-Ends_example : Ends (some plain_set) (some (some plain_set ∷ [])) 3 "parentBackground"
resolve-Ends_example =
    resolve-Ends 3 (some plain_set) (some (some plain_set ∷ [])) "parentBackground" (omega arith)
      (outward "blue" refl refl, outward "white" refl refl)
      (
        (
          settled "blue" refl refl (outward "blue" refl refl),
          settled "white" refl refl (outward "white" refl refl),
        ),
        tt,
      )
