-- ===== src/Color/Keywords/Resolution.antt =====
-- Where resolving a colour keyword ends, and where it does not.
use text.Mathlib.TextEquality.{eq_iff}
use prompto.Prelude.{
  ℕ, zero, suc, ◌≡◌, refl, ◌≢◌, ◌⊎◌, inl, inr, false, List, [], ◌∷◌, Option, none, some, String,
  arith, All, ◌==◌, string_comparable, Bool-cases,
}
use prompto.Prelude.Outcome.{stuck}
use prompto.Color.Keywords.{
  Set, transparent, parent_background, parent_foreground, background_keyword, foreground_keyword,
  or_transparent, resolve_parent_color, resolve,
}

-- A segment whose colours name each other.
abbrev pub swapped : Set
swapped = record { background = foreground_keyword; foreground = background_keyword }

-- If a segment's background is `foreground` and its foreground `background`, then resolving either
-- keyword never ends: no number of rounds is enough.
pub swapped_loops :
    (fuel : ℕ) (parents : Option (List (Option Set)))
    → (resolve fuel (some swapped) parents background_keyword ≡ stuck)
      × (resolve fuel (some swapped) parents foreground_keyword ≡ stuck)
unfolding resolve
swapped_loops zero parents = (refl, refl)
swapped_loops (suc fuel) parents = ((swapped_loops fuel parents).1, (swapped_loops fuel parents).0)

-- A colour of the segment that names neither of the segment's colours.
abbrev pub IsOutward : String → Type 0
IsOutward c = (c ≢ background_keyword) × (c ≢ foreground_keyword)

-- A colour that names no other: `transparent` or no keyword.
abbrev pub IsSettled : String → Type 0
IsSettled c = (c ≢ parent_background) × (c ≢ parent_foreground) × IsOutward c

abbrev pub IsOutwardSet : Option Set → Type 0
IsOutwardSet none = Unit
IsOutwardSet (some s) = IsOutward s.background × IsOutward s.foreground

abbrev pub IsSettledSet : Option Set → Type 0
IsSettledSet none = Unit
IsSettledSet (some s) = IsSettled s.background × IsSettled s.foreground

abbrev pub AreSettled : Option (List (Option Set)) → Type 0
AreSettled none = Unit
AreSettled (some ps) = All IsSettledSet ps

pub eq-false : (a b : String) → a ≢ b → (a == b) ≡ false
eq-false a b h = ground (arith, eq_iff a b)

pub transparent-IsSettled : IsSettled transparent
transparent-IsSettled = (
  ne parent_background refl,
  ne parent_foreground refl,
  (ne background_keyword refl, ne foreground_keyword refl),
)
  where
    ne : (b : String) → (transparent == b) ≡ false → transparent ≢ b
    ne b h e = ground (arith, eq_iff transparent b)

or_transparent-IsSettled : (c : String) → IsSettled c → IsSettled (or_transparent c)
or_transparent-IsSettled c s = elim (Bool-cases (c == "")) [
  | inl empty ↦ rw empty transparent-IsSettled
  | inr full ↦ rw full s
]

resolve_parent_color-IsSettled :
    (ps : List (Option Set)) (c : String) → IsSettled c → IsSettled (resolve_parent_color ps c)
unfolding resolve_parent_color
resolve_parent_color-IsSettled [] c s = or_transparent-IsSettled c s
resolve_parent_color-IsSettled (none ∷ ps) c s = transparent-IsSettled
resolve_parent_color-IsSettled (some p ∷ ps) c s =
    rw (eq-false c parent_background s.0, eq-false c parent_foreground s.1)
      (or_transparent-IsSettled c s)

-- What the parents make of a keyword for their colours.
pub parents_settle :
    (ps : List (Option Set)) (c : String)
    → All IsSettledSet ps
    → (c ≡ parent_background) ⊎ (c ≡ parent_foreground)
    → (resolve_parent_color ps c ≡ c) ⊎ IsSettled (resolve_parent_color ps c)
unfolding resolve_parent_color
parents_settle [] c a (inl e) = rw e (inl refl)
parents_settle [] c a (inr e) = rw e (inl refl)
parents_settle (none ∷ ps) c a k = inr transparent-IsSettled
parents_settle (some p ∷ ps) c a (inl e) =
    rw e (inr (resolve_parent_color-IsSettled ps p.background a.0.0))
parents_settle (some p ∷ ps) c a (inr e) =
    rw e (inr (resolve_parent_color-IsSettled ps p.foreground a.0.1))
