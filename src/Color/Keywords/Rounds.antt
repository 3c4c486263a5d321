-- ===== src/Color/Keywords/Rounds.antt =====
-- How many rounds the loop of `Resolve` takes.
use text.Mathlib.TextEquality.{eq_iff}
use prompto.Prelude.{
  ◌||◌, zero, ◌≤◌, ◌≢◌, ℕ, suc, ◌≡◌, refl, ◌⊎◌, inl, inr, sym, ◌∙◌, true, false, List, Option, none,
  some, String, arith, ◌==◌, string_comparable, Bool-cases, subst,
}
use prompto.Prelude.Dict.{eq_self}
use prompto.Prelude.Outcome.{done}
use prompto.Color.Keywords.{
  Set, transparent, parent_background, parent_foreground, background_keyword, foreground_keyword,
  is_keyword, resolve_of_parents, resolve_keyword, resolve,
}
use prompto.Color.Keywords.Resolution.{
  IsSettled, IsOutward, IsOutwardSet, AreSettled, transparent-IsSettled, parents_settle, eq-false,
}

is_parent :
    (c : String)
    → (c ≡ parent_background) ⊎ (c ≡ parent_foreground)
    → (c == parent_background || c == parent_foreground) ≡ true
is_parent c k = ground (arith, eq_iff c parent_background, eq_iff c parent_foreground)

-- What the parents make of a keyword for one of their colours, or of another keyword.
of_parents-IsSettled :
    (parents : Option (List (Option Set))) (color : String)
    → AreSettled parents
    → (color ≡ parent_background) ⊎ (color ≡ parent_foreground)
    → (resolve_of_parents parents color ≡ color) ⊎ IsSettled (resolve_of_parents parents color)
unfolding resolve_of_parents
of_parents-IsSettled none color a k = inr transparent-IsSettled
of_parents-IsSettled (some ps) color a k = rw (is_parent color k) (parents_settle ps color a k)

of_parents_other :
    (parents : Option (List (Option Set))) (color : String)
    → (color == parent_background || color == parent_foreground) ≡ false
    → resolve_of_parents parents color ≡ transparent
unfolding resolve_of_parents
of_parents_other none color h = refl
of_parents_other (some ps) color h = rw h

module _ (current : Option Set) (parents : Option (List (Option Set))) where
  -- The loop ends within that many rounds, in no keyword or in one that stands for itself.
  abbrev pub Ends : ℕ → String → Type 0
  Ends fuel color =
      (c : String) × (resolve fuel current parents color ≡ done c)
      × ((is_keyword c ≡ false) ⊎ (resolve_keyword current parents c ≡ c))

  plain_Ends : (fuel : ℕ) (color : String) → is_keyword color ≡ false → Ends (suc fuel) color
  unfolding resolve
  plain_Ends fuel color h = (color, rw h, inl h)

  round_Ends :
      (fuel : ℕ) (color : String)
      → (resolve_keyword current parents color ≡ color)
        ⊎ Ends fuel (resolve_keyword current parents color)
      → Ends (suc fuel) color
  unfolding resolve
  round_Ends fuel color (inl same) = elim (Bool-cases (is_keyword color)) [
    | inl keyword ↦ (color, rw (keyword, same, eq_self color), inr same)
    | inr plain ↦ plain_Ends fuel color plain
  ]
  round_Ends fuel color (inr (c, e, f)) = elim (Bool-cases (is_keyword color)) [
    | inr plain ↦ plain_Ends fuel color plain
    | inl keyword ↦ elim (Bool-cases (resolve_keyword current parents color == color)) [
      | inl same ↦ (
        color,
        rw keyword (rw same),
        inr ((eq_iff (resolve_keyword current parents color) color).0 same),
      )
      | inr other ↦ (c, rw keyword (rw other e), f)
    ]
  ]

  settled_Ends : (fuel : ℕ) (color : String) → IsSettled color → Ends (suc fuel) color
  unfolding is_keyword
  settled_Ends fuel color (pb, pf, (bg, fg)) = elim (Bool-cases (color == transparent)) [
    | inl is_transparent ↦
        rw ((eq_iff color transparent).0 is_transparent)
          (round_Ends fuel transparent (inl (stays current parents)))
    | inr other ↦ plain_Ends fuel color (
        rw (
          other,
          eq-false color parent_background pb,
          eq-false color parent_foreground pf,
          eq-false color background_keyword bg,
          eq-false color foreground_keyword fg,
        ))
  ]
    where
      stays :
          (cur : Option Set) (ps : Option (List (Option Set)))
          → resolve_keyword cur ps transparent ≡ transparent
      stays none none = unfold resolve_keyword resolve_of_parents in refl
      stays none (some ps) = unfold resolve_keyword resolve_of_parents in refl
      stays (some s) none = unfold resolve_keyword resolve_of_parents in refl
      stays (some s) (some ps) = unfold resolve_keyword resolve_of_parents in refl

  of_parents :
      (color : String)
      → IsOutward color
      → resolve_keyword current parents color ≡ resolve_of_parents parents color
  of_parents color (bg, fg) = skip current
    where
      skip :
          (cur : Option Set) → resolve_keyword cur parents color ≡ resolve_of_parents parents color
      skip none = unfold resolve_keyword in refl
      skip (some s) =
          unfold resolve_keyword in
          rw (eq-false color background_keyword bg, eq-false color foreground_keyword fg)

  outward_Ends :
      (fuel : ℕ) (color : String)
      → AreSettled parents
      → IsOutward color
      → Ends (suc (suc fuel)) color
  outward_Ends fuel color a out = elim (parent_cases color) [
    | inr other ↦ settled_Ends (suc fuel) color (other.0, other.1, out)
    | inl k ↦ elim (of_parents-IsSettled parents color a k) [
      | inl same ↦ round_Ends (suc fuel) color (inl (of_parents color out ∙ same))
      | inr settled ↦ round_Ends (suc fuel) color (
          inr (
            subst (Ends (suc fuel)) (sym (of_parents color out))
              (settled_Ends fuel (resolve_of_parents parents color) settled)))
    ]
  ]
    where
      parent_cases :
          (c : String)
          → ((c ≡ parent_background) ⊎ (c ≡ parent_foreground))
            ⊎ ((c ≢ parent_background) × (c ≢ parent_foreground))
      parent_cases c = ground (arith, eq_iff c parent_background, eq_iff c parent_foreground)

own-IsOutward :
    (s : Set) (parents : Option (List (Option Set))) (color : String)
    → (color ≡ background_keyword) ⊎ (color ≡ foreground_keyword)
    → IsOutwardSet (some s)
    → IsOutward (resolve_keyword (some s) parents color)
unfolding resolve_keyword
own-IsOutward s parents color (inl e) o = rw e o.0
own-IsOutward s parents color (inr e) o = rw e o.1

no_own :
    (parents : Option (List (Option Set))) (color : String)
    → (color ≡ background_keyword) ⊎ (color ≡ foreground_keyword)
    → resolve_keyword none parents color ≡ transparent
unfolding resolve_keyword
no_own parents color (inl e) = of_parents_other parents color (rw e)
no_own parents color (inr e) = of_parents_other parents color (rw e)

own_cases : (c : String) → ((c ≡ background_keyword) ⊎ (c ≡ foreground_keyword)) ⊎ IsOutward c
own_cases c = ground (arith, eq_iff c background_keyword, eq_iff c foreground_keyword)

transparent-Ends :
    (n : ℕ) (current : Option Set) (parents : Option (List (Option Set)))
    → Ends current parents (suc n) transparent
transparent-Ends n current parents =
    settled_Ends current parents n transparent transparent-IsSettled

own_Ends :
    (n : ℕ) (current : Option Set) (parents : Option (List (Option Set))) (color : String)
    → IsOutwardSet current
    → AreSettled parents
    → (color ≡ background_keyword) ⊎ (color ≡ foreground_keyword)
    → Ends current parents (suc (suc n)) (resolve_keyword current parents color)
own_Ends n none parents color o a k =
    subst (Ends none parents (suc (suc n))) (sym (no_own parents color k))
      (transparent-Ends (suc n) none parents)
own_Ends n (some s) parents color o a k =
    outward_Ends (some s) parents n (resolve_keyword (some s) parents color) a
      (own-IsOutward s parents color k o)

-- If the segment's colours do not name the segment's colours, and its parents' colours name none,
-- then `Resolve` ends, within three rounds, in no keyword or in one that stands for itself.
pub resolve-Ends :
    (fuel : ℕ) (current : Option Set) (parents : Option (List (Option Set))) (color : String)
    → 3 ≤ fuel
    → IsOutwardSet current
    → AreSettled parents
    → Ends current parents fuel color
resolve-Ends zero current parents color le o a = absurd (omega arith)
resolve-Ends (suc zero) current parents color le o a = absurd (omega arith)
resolve-Ends (suc (suc zero)) current parents color le o a = absurd (omega arith)
resolve-Ends (suc (suc (suc n))) current parents color le o a = elim (own_cases color) [
  | inl k ↦
      round_Ends current parents (suc (suc n)) color (inr (own_Ends n current parents color o a k))
  | inr out ↦ outward_Ends current parents (suc n) color a out
]
