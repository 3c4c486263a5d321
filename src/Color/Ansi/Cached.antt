-- ===== src/Color/Ansi/Cached.antt =====
-- `Cached` of src/color/colors.go: the colours that were asked for before.
use text.Mathlib.TextEquality.{eq_iff}
use prompto.Prelude.{
  Comparable, Bool, true, false, not, ◌&&◌, List, [], ◌∷◌, Option, none, some, String, ◌≡◌, refl,
  sym, ap, ◌↔◌, inl, inr, map, arith, ◌==◌, string_comparable, Option-cases,
}
use prompto.Prelude.Dict.{Dict, lookup, insert, lookup-insert_cases}
use prompto.Color.Ansi.{Colors}

abbrev pub CachedColorKey : Type 0
CachedColorKey = String × Bool

instance abbrev pub key_comparable : Comparable CachedColorKey
key_comparable = record { equals = same; equals_iff = same_iff }
  where
    agree : Bool → Bool → Bool
    agree true b = b
    agree false b = not b

    same : CachedColorKey → CachedColorKey → Bool
    same k l = (k.0 == l.0) && agree k.1 l.1

    agree_iff : (a b : Bool) → (agree a b ≡ true) ↔ (a ≡ b)
    agree_iff true b = (λ h. sym h, λ h. sym h)
    agree_iff false true = (λ h. h, λ h. h)
    agree_iff false false = (λ h. refl, λ h. refl)

    both : (x y : Bool) → (x && y ≡ true) ↔ ((x ≡ true) × (y ≡ true))
    both x y = ground arith

    same_iff : (k l : CachedColorKey) → (same k l ≡ true) ↔ (k ≡ l)
    same_iff (c, b) (d, e) = (
      λ h.
          let parts = (both (c == d) (agree b e)).0 h in
          let names = (eq_iff c d).0 parts.0 in
          let grounds = (agree_iff b e).0 parts.1 in rw (names, grounds),
      λ h.
          (both (c == d) (agree b e)).1
            ((eq_iff c d).1 (ap (λ k. k.0) h), (agree_iff b e).1 (ap (λ k. k.1) h)),
    )

abbrev pub or_no_entries : Option (Dict CachedColorKey String) → Dict CachedColorKey String
or_no_entries none = []
or_no_entries (some m) = m

-- The colour cache is `none` where the map is nil.
unfoldable pub cached_to_ansi :
    Colors
    → Option (Dict CachedColorKey String)
    → CachedColorKey
    → String × Dict CachedColorKey String
cached_to_ansi inner cache key =
    let m = or_no_entries cache in
    let ansi_color = inner.to_ansi key.0 key.1 in
    elim (lookup key m) [ some hit ↦ (hit, m) | none ↦ (ansi_color, insert key ansi_color m) ]

unfoldable pub cached_resolve : Colors → String → Option String
cached_resolve inner c = inner.resolve c

-- A sequence of calls, from one cache to the next.
unfoldable pub answers :
    Colors → Option (Dict CachedColorKey String) → List CachedColorKey → List String
unfolding cached_to_ansi
answers inner cache [] = []
answers inner cache (key ∷ keys) =
    let (answer, next) = cached_to_ansi inner cache key in answer ∷ answers inner (some next) keys

module _ (inner : Colors) where
  -- Every entry is what the decorated colours say.
  abbrev IsSound : Dict CachedColorKey String → Type 0
  IsSound m =
      (key : CachedColorKey) (c : String) → lookup key m ≡ some c → inner.to_ansi key.0 key.1 ≡ c

  insert-IsSound :
      (key : CachedColorKey) (m : Dict CachedColorKey String)
      → IsSound m
      → IsSound (insert key (inner.to_ansi key.0 key.1) m)
  insert-IsSound key m h other c e =
      elim (lookup-insert_cases key other (inner.to_ansi key.0 key.1) c m e) [
        | inl (same, new) ↦ rw (sym same) (sym new)
        | inr (differs, old) ↦ h other c old
      ]

  cached_to_ansi-IsSound :
      (cache : Option (Dict CachedColorKey String)) (key : CachedColorKey)
      → IsSound (or_no_entries cache)
      → ((cached_to_ansi inner cache key).0 ≡ inner.to_ansi key.0 key.1)
        × IsSound (cached_to_ansi inner cache key).1
  unfolding cached_to_ansi
  cached_to_ansi-IsSound cache key h = elim (Option-cases (lookup key (or_no_entries cache))) [
    | inl miss ↦ rw (cached_to_ansi, miss) (refl, insert-IsSound key (or_no_entries cache) h)
    | inr (c, hit) ↦ rw (cached_to_ansi, hit) (sym (h key c hit), h)
  ]

  answers-IsSound :
      (cache : Option (Dict CachedColorKey String)) (keys : List CachedColorKey)
      → IsSound (or_no_entries cache)
      → answers inner cache keys ≡ map (λ key. inner.to_ansi key.0 key.1) keys
  unfolding answers
  answers-IsSound cache [] h = refl
  answers-IsSound cache (key ∷ keys) h =
      let step = cached_to_ansi-IsSound cache key h in
      rw (step.0, answers-IsSound (some (cached_to_ansi inner cache key).1) keys step.1)

-- The cache is transparent: a sequence of calls of the cached colours that starts with no cache gives
-- for each key, however often it comes, what the colours below give.
pub answers-map :
    (inner : Colors) (keys : List CachedColorKey)
    → answers inner none keys ≡ map (λ key. inner.to_ansi key.0 key.1) keys
unfolding lookup
answers-map inner keys = answers-IsSound inner none keys (λ key c e. cc)
