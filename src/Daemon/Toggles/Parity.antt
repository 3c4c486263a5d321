-- ===== src/Daemon/Toggles/Parity.antt =====
-- Laws of `ToggleSegment` and `SessionToggles` of src/daemon/daemon.go.
use text.Mathlib.TextEquality.{eq_iff}
use mathlib.Core.Bool.{xor}
use prompto.Prelude.{
  subst, ◌≡◌, refl, sym, ap, ◌∙◌, ◌⊎◌, inl, inr, Bool, true, false, List, [], ◌∷◌, none, some,
  String, arith, if◌then◌else◌, string_comparable, ◌==◌, Option-cases, Bool-cases,
}
use prompto.Prelude.Dict.{
  lookup, insert, lookup-insert, lookup-delete, lookup-insert_self, lookup-insert_away,
}
use prompto.Daemon.Toggles.{
  ToggleMap, Toggles, value_or_false, is_on, seed, session_toggles, flip, flip_all, or_empty,
  toggle_segment,
}

-- Whether a name stands an odd number of times in a list.
abbrev pub odd_times : String → List String → Bool
odd_times n [] = false
odd_times n (name ∷ names) = xor (name == n) (odd_times n names)

xor-false : (b : Bool) → xor b false ≡ b
unfolding xor
xor-false true = refl
xor-false false = refl

xor_assoc : (a b c : Bool) → xor (xor a b) c ≡ xor a (xor b c)
unfolding xor
xor_assoc a b c = ground arith

removed :
    (m : ToggleMap) (name n : String)
    → is_on m name ≡ true
    → ((name == n) ≡ true) ⊎ ((name == n) ≡ false)
    → value_or_false (if name == n then none else lookup n m) ≡ xor (is_on m n) (name == n)
unfolding is_on xor
removed m name n on (inl same) =
    let here : is_on m n ≡ true = subst (λ k. is_on m k ≡ true) ((eq_iff name n).0 same) on in
    rw same (rw here)
removed m name n on (inr differs) = rw differs (sym (xor-false (value_or_false (lookup n m))))

added :
    (m : ToggleMap) (name n : String)
    → is_on m name ≡ false
    → ((name == n) ≡ true) ⊎ ((name == n) ≡ false)
    → value_or_false (if name == n then some true else lookup n m) ≡ xor (is_on m n) (name == n)
unfolding is_on xor
added m name n off (inl same) =
    let here : is_on m n ≡ false = subst (λ k. is_on m k ≡ false) ((eq_iff name n).0 same) off in
    rw same (rw here)
added m name n off (inr differs) = rw differs (sym (xor-false (value_or_false (lookup n m))))

is_on-flip : (m : ToggleMap) (name n : String) → is_on (flip name m) n ≡ xor (is_on m n) (name == n)
unfolding flip
is_on-flip m name n = elim (Bool-cases (is_on m name)) [
  | inl on ↦
      rw on
        (ap value_or_false (lookup-delete name n m) ∙ removed m name n on (Bool-cases (name == n)))
  | inr off ↦ rw off (
      ap value_or_false (lookup-insert name n true m) ∙ added m name n off (Bool-cases (name == n)))
]

is_on-flip_all :
    (names : List String) (m : ToggleMap) (n : String)
    → is_on (flip_all names m) n ≡ xor (is_on m n) (odd_times n names)
unfolding flip_all
is_on-flip_all [] m n = sym (xor-false (is_on m n))
is_on-flip_all (name ∷ names) m n =
    is_on-flip_all names (flip name m) n
    ∙ ap (λ b. xor b (odd_times n names)) (is_on-flip m name n)
    ∙ xor_assoc (is_on m n) (name == n) (odd_times n names)

-- The toggles of a session as `ToggleSegment` and the next render see them.
abbrev pub toggles_of : Toggles → ToggleMap → String → ToggleMap
toggles_of d shared id = (session_toggles d shared id).0

session_toggles-some :
    (d : Toggles) (shared : ToggleMap) (id : String) (m : ToggleMap)
    → lookup id d.segment_toggles ≡ some m
    → session_toggles d shared id ≡ (m, d)
unfolding session_toggles
session_toggles-some d shared id m h = rw (h, session_toggles)

session_toggles-none :
    (d : Toggles) (shared : ToggleMap) (id : String)
    → lookup id d.segment_toggles ≡ none
    → session_toggles d shared id
      ≡ (shared, record d { segment_toggles = insert id shared d.segment_toggles })
unfolding session_toggles
session_toggles-none d shared id h = rw (h, session_toggles) (rw (h, seed))

-- Seeding is stored: the session's map is then what `SessionToggles` returned, every other session's
-- is as it was, and asking again changes nothing.
session_toggles_stored :
    (d : Toggles) (shared : ToggleMap) (id : String)
    → let (m, d') = session_toggles d shared id in
      (lookup id d'.segment_toggles ≡ some m)
      × ((j : String) → (id ≡ j) ⊎ (lookup j d'.segment_toggles ≡ lookup j d.segment_toggles))
session_toggles_stored d shared id = elim (Option-cases (lookup id d.segment_toggles)) [
  | inl missing ↦ rw (session_toggles-none d shared id missing) (
    lookup-insert_self id shared d.segment_toggles,
    λ j. lookup-insert_away id j shared d.segment_toggles,
  )
  | inr (m, h) ↦ rw (session_toggles-some d shared id m h) (h, λ j. inr refl)
]

abbrev flipped : Toggles → String → List String → ToggleMap → Toggles
flipped d id segments m = record d {
  segment_toggles = insert id (flip_all segments m) d.segment_toggles;
}

toggle_segment-flipped :
    (d : Toggles) (shared : ToggleMap) (id : String) (segments : List String)
    → toggle_segment d shared id segments
      ≡ flipped (session_toggles d shared id).1 id segments (toggles_of d shared id)
unfolding toggle_segment
toggle_segment-flipped d shared id segments =
    ap (λ o. flipped (session_toggles d shared id).1 id segments (or_empty o))
      (session_toggles_stored d shared id).0

-- What `ToggleSegment` makes of a session: a name is on afterwards if it was on before, or not, and
-- it was named an even, or an odd, number of times. No other session changes.
pub toggle_segment_parity :
    (d : Toggles) (shared : ToggleMap) (id : String) (segments : List String)
    → let d' = toggle_segment d shared id segments in
      ((n : String)
        → is_on (toggles_of d' shared id) n
          ≡ xor (is_on (toggles_of d shared id) n) (odd_times n segments))
      × ((j : String) → (id ≡ j) ⊎ (lookup j d'.segment_toggles ≡ lookup j d.segment_toggles))
toggle_segment_parity d shared id segments =
    let d1 = (session_toggles d shared id).1 in
    let m = toggles_of d shared id in
    let (_, others) = session_toggles_stored d shared id in
    let d2 = flipped d1 id segments m in
    let now : toggles_of d2 shared id ≡ flip_all segments m =
      ap (λ r. r.0)
        (session_toggles-some d2 shared id (flip_all segments m)
          (lookup-insert_self id (flip_all segments m) d1.segment_toggles)) in
    rw (toggle_segment-flipped d shared id segments) (
      λ n. ap (λ x. is_on x n) now ∙ is_on-flip_all segments m n,
      λ j. elim (lookup-insert_away id j (flip_all segments m) d1.segment_toggles) [
        | inl same ↦ inl same
        | inr away ↦ elim (others j) [ inl same ↦ inl same | inr kept ↦ inr (away ∙ kept) ]
      ],
    )
