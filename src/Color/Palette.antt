-- ===== src/Color/Palette.antt =====
-- src/color/palette.go: named colours, some of which name others.
-- The two error types are constructors; their texts are left out.
pub mod Resolution
use Prim.Native.Char.{code}
use prompto.Prelude.{
  ℕ, zero, suc, ◌+◌, Bool, ◌&&◌, Option, none, some, String, if◌then◌else◌, ltb, eqb,
  string_comparable,
}
use prompto.Prelude.Dict.{Dict, lookup}
use prompto.Prelude.Outcome.{Outcome, done, panic, stuck}

abbrev pub Palette : Type 0
Palette = Dict String String

abbrev pub palette_max_recursion_depth : ℕ
palette_max_recursion_depth = 3

-- A colour, or an error.
pub data Resolved : Type 0 where
  color : String → Resolved
  palette_key_error : String → Resolved
  palette_recursive_key_error : String → String → ℕ → Resolved

-- What follows the prefix `p:`; other colours are no palette keys.
unfoldable pub as_palette_key : String → Option String
as_palette_key String.[] = none
as_palette_key (String.◌∷◌ a String.[]) = none
as_palette_key (String.◌∷◌ a (String.◌∷◌ b key)) =
    if eqb (code a) b'p' && eqb (code b) b':' then some key else none

-- `resolveColor`, with fuel.
unfoldable pub resolve_at : Palette → ℕ → String → ℕ → String → Outcome Resolved
resolve_at p zero name depth original = stuck
resolve_at p (suc fuel) name depth original = elim (as_palette_key name) [
  | none ↦ done (color name)
  | some key ↦ elim (lookup key p) [
    | none ↦ done (palette_key_error key)
    | some next ↦
        let again = resolve_at p fuel next (depth + 1) original in
        elim (as_palette_key next) [
          | some _ ↦
              if ltb palette_max_recursion_depth depth
              then done (palette_recursive_key_error original next depth)
              else again
          | none ↦ done (color next)
        ]
  ]
]

-- `ResolveColor`.
unfoldable pub resolve_color : Palette → String → Outcome Resolved
resolve_color p name = resolve_at p (palette_max_recursion_depth + 1) name 1 name

-- `MaybeResolveColor`.
unfoldable pub maybe_resolve_color : Palette → String → Outcome String
unfolding resolve_color
maybe_resolve_color p name = elim (resolve_color p name) [
  | done (color c) ↦ done c
  | done (palette_key_error k) ↦ done ""
  | done (palette_recursive_key_error k v d) ↦ done ""
  | panic ↦ panic
  | stuck ↦ stuck
]
