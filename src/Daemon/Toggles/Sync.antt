-- ===== src/Daemon/Toggles/Sync.antt =====
-- Laws of `syncConfigToggles` of src/daemon/daemon.go.
use text.Mathlib.TextEquality.{eq_iff}
use prompto.Prelude.{
  ◌≡◌, refl, sym, ap, ◌∙◌, subst, inl, inr, Bool, true, false, not, ◌&&◌, ◌||◌, List, [], ◌∷◌,
  Option, none, some, String, arith, if◌then◌else◌, string_comparable, ◌==◌, Bool-cases,
}
use prompto.Prelude.Dict.{Dict, is_some, map_option, lookup, insert, Distinct, lookup-insert}
use prompto.Daemon.Toggles.{
  ToggleMap, Toggles, value_or_false, is_on, gained, turn_on, push_all, push_added,
  sync_config_toggles,
}

abbrev pub mem : String → List String → Bool
mem n [] = false
mem n (name ∷ names) = name == n || mem n names

is_on-insert :
    (m : ToggleMap) (name n : String) → is_on (insert name true m) n ≡ (name == n || is_on m n)
unfolding is_on
is_on-insert m name n = ground (arith, lookup-insert name n true m)

is_on-turn_on :
    (names : List String) (m : ToggleMap) (n : String)
    → is_on (turn_on names m) n ≡ (mem n names || is_on m n)
unfolding turn_on
is_on-turn_on [] m n = refl
is_on-turn_on (name ∷ names) m n =
    ground (arith, is_on-turn_on names (insert name true m) n, is_on-insert m name n)

is_on-cons :
    (name n : String) (on : Bool) (shared : ToggleMap)
    → lookup name shared ≡ none
    → is_on ((name, on) ∷ shared) n ≡ ((name == n && on) || is_on shared n)
unfolding is_on lookup
is_on-cons name n on shared d = ground (arith, eq_iff name n)

is_on_missing :
    (m : ToggleMap) (name n : String)
    → lookup name m ≡ none
    → (name == n) ≡ true
    → is_on m n ≡ false
unfolding is_on
is_on_missing m name n h same =
    ap value_or_false (subst (λ k. lookup k m ≡ none) ((eq_iff name n).0 same) h)

is_on_same : (m : ToggleMap) (name n : String) → (name == n) ≡ true → is_on m name ≡ is_on m n
is_on_same m name n same = ap (is_on m) ((eq_iff name n).0 same)

skip_branch {ℓ} :
    {A : Type ℓ} (a b : Bool) (x y : A)
    → (a && not b) ≡ false
    → (if not a then x else if b then x else y) ≡ x
skip_branch false b x y h = refl
skip_branch true true x y h = refl
skip_branch true false x y h = cc

take_branch {ℓ} :
    {A : Type ℓ} (a b : Bool) (x y : A)
    → (a && not b) ≡ true
    → (if not a then x else if b then x else y) ≡ y
take_branch false b x y h = cc
take_branch true true x y h = cc
take_branch true false x y h = refl

gained_old :
    (name : String) (on : Bool) (shared seeded : ToggleMap)
    → (on && not (is_on seeded name)) ≡ false
    → gained ((name, on) ∷ shared) seeded ≡ gained shared seeded
unfolding gained
gained_old name on shared seeded h = skip_branch on (is_on seeded name) _ _ h

gained_new :
    (name : String) (on : Bool) (shared seeded : ToggleMap)
    → (on && not (is_on seeded name)) ≡ true
    → gained ((name, on) ∷ shared) seeded ≡ (
      name ∷ (gained shared (insert name true seeded)).0,
      (gained shared (insert name true seeded)).1,
    )
unfolding gained
gained_new name on shared seeded h = take_branch on (is_on seeded name) _ _ h

-- A shared map names each toggle once.
mem-gained :
    (shared seeded : ToggleMap) (n : String)
    → Distinct shared
    → (mem n (gained shared seeded).0 ≡ (is_on shared n && not (is_on seeded n)))
      × (is_on (gained shared seeded).1 n ≡ (is_on shared n || is_on seeded n))
mem-gained [] seeded n d = unfold gained is_on lookup in (refl, refl)
mem-gained ((name, on) ∷ shared) seeded n d =
    let skipped = mem-gained shared seeded n d.1 in
    let taken = mem-gained shared (insert name true seeded) n d.1 in
    let head = is_on-cons name n on shared d.0 in
    let put_in = is_on-insert seeded name n in
    let absent = is_on_missing shared name n d.0 in
    let same = is_on_same seeded name n in
    elim (Bool-cases (on && not (is_on seeded name))) [
      | inl new ↦ rw (gained_new name on shared seeded new) (ground arith)
      | inr old ↦ rw (gained_old name on shared seeded old) (ground arith)
    ]

lookup-push_all :
    (names : List String) (sessions : Dict String ToggleMap) (id : String)
    → lookup id (push_all names sessions) ≡ map_option (turn_on names) (lookup id sessions)
unfolding push_all lookup
lookup-push_all names [] id = refl
lookup-push_all names ((j, m) ∷ sessions) id = elim (Bool-cases (j == id)) [
  | inl here ↦ rw here
  | inr there ↦ rw there (lookup-push_all names sessions id)
]

abbrev pub on_in : Option ToggleMap → String → Bool
on_in none n = false
on_in (some m) n = is_on m n

pushed :
    (o : Option ToggleMap) (names : List String) (n : String)
    → on_in (map_option (turn_on names) o) n ≡ (is_some o && (mem n names || on_in o n))
pushed none names n = refl
pushed (some m) names n = is_on-turn_on names m n

map_option-id : (o : Option ToggleMap) → map_option (turn_on []) o ≡ o
unfolding turn_on
map_option-id none = refl
map_option-id (some m) = refl

lookup-push_added :
    (d : Toggles) (names : List String) (seeded : ToggleMap) (id : String)
    → lookup id (push_added d names seeded).segment_toggles
      ≡ map_option (turn_on names) (lookup id d.segment_toggles)
unfolding push_added
lookup-push_added d [] seeded id = sym (map_option-id (lookup id d.segment_toggles))
lookup-push_added d (name ∷ names) seeded id = lookup-push_all (name ∷ names) d.segment_toggles id

seeded-push_added :
    (d : Toggles) (names : List String) (seeded : ToggleMap)
    → (push_added d names seeded).seeded_toggles ≡ seeded
unfolding push_added
seeded-push_added d [] seeded = refl
seeded-push_added d (name ∷ names) seeded = refl

sync_push :
    (d : Toggles) (shared : ToggleMap)
    → (d.config_path == "") ≡ false
    → sync_config_toggles d shared
      ≡ push_added d (gained shared d.seeded_toggles).0 (gained shared d.seeded_toggles).1
unfolding sync_config_toggles
sync_push d shared path = rw path

-- The toggles that a session has stored.
abbrev pub stored_on : Toggles → String → String → Bool
stored_on d id n = on_in (lookup id d.segment_toggles) n

-- A sync switches on, in every session that has toggles, exactly the names that the shared map has
-- on and that were not seeded before; it marks those as seeded, and leaves all else alone.
pub sync_config_toggles_lem :
    (d : Toggles) (shared : ToggleMap) (id n : String)
    → Distinct shared
    → (d.config_path == "") ≡ false
    → let d' = sync_config_toggles d shared in
      (stored_on d' id n ≡ (
        is_some (lookup id d.segment_toggles)
        && ((is_on shared n && not (is_on d.seeded_toggles n)) || stored_on d id n)))
      × (is_on d'.seeded_toggles n ≡ (is_on shared n || is_on d.seeded_toggles n))
sync_config_toggles_lem d shared id n u path =
    let added = (gained shared d.seeded_toggles).0 in
    let seeded = (gained shared d.seeded_toggles).1 in
    let (names, marks) = mem-gained shared d.seeded_toggles n u in
    let e : sync_config_toggles d shared ≡ push_added d added seeded = sync_push d shared path in
    rw e (
      on_option (lookup-push_added d added seeded id)
          ∙ pushed (lookup id d.segment_toggles) added n
          ∙ rw names,
      ap (λ m. is_on m n) (seeded-push_added d added seeded) ∙ marks,
    )
  where
    on_option : {o o' : Option ToggleMap} → o ≡ o' → on_in o n ≡ on_in o' n
    on_option = ap (λ o. on_in o n)
