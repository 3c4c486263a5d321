-- ===== src/Color/Palette/Resolution.antt =====
-- What resolving a colour in a palette comes to.
use prompto.Prelude.{
  if◌then◌else◌, subst, ◌<◌, ltb, ap, inr, ◌∙◌, sym, inl, string_comparable, ℕ, zero, suc, ◌+◌, ◌≤◌,
  ◌≡◌, refl, Option, none, some, String, arith, Option-cases,
}
use prompto.Prelude.Dict.{lookup}
use prompto.Prelude.Outcome.{done}
use prompto.Color.Palette.{
  palette_key_error, Palette, Resolved, color, as_palette_key, resolve_at, resolve_color,
  palette_max_recursion_depth, palette_recursive_key_error,
}

none_ne : {x : String} → ◌≡◌ {A = Option String} none (some x) → ⊥
none_ne e = cc

some_eq : {x y : String} → some x ≡ some y → x ≡ y
some_eq e = cc

-- Looking a colour up the given number of times, each time as a palette key.
abbrev pub follow : Palette → ℕ → String → Option String
follow p zero name = some name
follow p (suc n) name = elim (as_palette_key name) [
  | none ↦ none
  | some key ↦ elim (lookup key p) [ none ↦ none | some next ↦ follow p n next ]
]

-- The references end after `n` lookups in a colour that is none.
abbrev pub Ends : Palette → ℕ → String → String → Type 0
Ends p n name c = (follow p n name ≡ some c) × (as_palette_key c ≡ none)

at_plain :
    (p : Palette) (fuel : ℕ) (name : String) (depth : ℕ) (original : String)
    → as_palette_key name ≡ none
    → resolve_at p (suc fuel) name depth original ≡ done (color name)
unfolding resolve_at
at_plain p fuel name depth original h = rw (h, resolve_at)

at_missing :
    (p : Palette) (fuel : ℕ) (name : String) (depth : ℕ) (original key : String)
    → as_palette_key name ≡ some key
    → lookup key p ≡ none
    → resolve_at p (suc fuel) name depth original ≡ done (palette_key_error key)
unfolding resolve_at
at_missing p fuel name depth original key h l = rw (h, resolve_at) (rw l)

at_found :
    (p : Palette) (fuel : ℕ) (name : String) (depth : ℕ) (original key next : String)
    → as_palette_key name ≡ some key
    → lookup key p ≡ some next
    → as_palette_key next ≡ none
    → resolve_at p (suc fuel) name depth original ≡ done (color next)
unfolding resolve_at
at_found p fuel name depth original key next h l plain = rw (h, resolve_at) (rw l (rw plain))

at_reference :
    (p : Palette) (fuel : ℕ) (name : String) (depth : ℕ) (original key next key' : String)
    → as_palette_key name ≡ some key
    → lookup key p ≡ some next
    → as_palette_key next ≡ some key'
    → resolve_at p (suc fuel) name depth original ≡ (
        if ltb palette_max_recursion_depth depth
        then done (palette_recursive_key_error original next depth)
        else resolve_at p fuel next (depth + 1) original)
unfolding resolve_at
at_reference p fuel name depth original key next key' h l ref = rw (h, resolve_at) (rw l (rw ref))

follow_step :
    (p : Palette) (n : ℕ) (name key next : String)
    → as_palette_key name ≡ some key
    → lookup key p ≡ some next
    → follow p (suc n) name ≡ follow p n next
follow_step p n name key next h l = rw (h, follow) (rw l)

-- The references of a colour do not end within that many lookups.
abbrev pub NoEnd : Palette → ℕ → String → Type 0
NoEnd p left name = ¬ ((n : ℕ) × (c : String) × (n ≤ left) × Ends p n name c)

-- What resolving with that many lookups comes to: the colour in which the references end, or an
-- error if they do not end.
abbrev pub Answers : Palette → ℕ → String → Resolved → Type 0
Answers p left name (color c) = (n : ℕ) × (n ≤ left) × Ends p n name c
Answers p left name e = NoEnd p left name

follow_missing :
    (p : Palette) (n : ℕ) (name key : String)
    → as_palette_key name ≡ some key
    → lookup key p ≡ none
    → follow p (suc n) name ≡ none
follow_missing p n name key h l = rw (h, follow) (rw l)

-- A colour that is a reference ends after one more lookup than what it names.
reference_Ends :
    (p : Palette) (n : ℕ) (name key c : String)
    → as_palette_key name ≡ some key
    → Ends p n name c
    → (m : ℕ) × (next : String) × (n ≡ suc m) × (lookup key p ≡ some next) × Ends p m next c
reference_Ends p zero name key c h (f, plain) =
    absurd (none_ne (sym plain ∙ ap as_palette_key (some_eq (sym f)) ∙ h))
reference_Ends p (suc m) name key c h (f, plain) = elim (Option-cases (lookup key p)) [
  | inl missing ↦ absurd (none_ne (sym (follow_missing p m name key h missing) ∙ f))
  | inr (next, l) ↦ (m, next, refl, l, (sym (follow_step p m name key next h l) ∙ f, plain))
]

missing_Answers :
    (p : Palette) (left : ℕ) (name key : String)
    → as_palette_key name ≡ some key
    → lookup key p ≡ none
    → Answers p left name (palette_key_error key)
missing_Answers p left name key h l (n, c, le, ends) =
    let (m, next, e, l', ends') = reference_Ends p n name key c h ends in
    absurd (none_ne (sym l ∙ l'))

next_NoEnd :
    (p : Palette) (left : ℕ) (name key next : String)
    → as_palette_key name ≡ some key
    → lookup key p ≡ some next
    → NoEnd p left next
    → NoEnd p (suc left) name
next_NoEnd p left name key next h l endless (n, c, le, ends) =
    let (m, next', e, l', ends') = reference_Ends p n name key c h ends in
    endless (m, c, omega arith, subst (λ x. Ends p m x c) (some_eq (sym l' ∙ l)) ends')

-- Another lookup.
next_Answers :
    (p : Palette) (left : ℕ) (name key next : String) (r : Resolved)
    → as_palette_key name ≡ some key
    → lookup key p ≡ some next
    → Answers p left next r
    → Answers p (suc left) name r
next_Answers p left name key next (color c) h l (n, le, (f, plain)) =
    (suc n, omega arith, (follow_step p n name key next h l ∙ f, plain))
next_Answers p left name key next (palette_key_error k) h l a =
    next_NoEnd p left name key next h l a
next_Answers p left name key next (palette_recursive_key_error k v d) h l a =
    next_NoEnd p left name key next h l a

-- No lookups are left at the depth limit.
limit_Answers :
    (p : Palette) (name key : String) (original : String) (depth : ℕ)
    → as_palette_key name ≡ some key
    → Answers p 0 name (palette_recursive_key_error original name depth)
limit_Answers p name key original depth h (n, c, le, ends) =
    let (m, next, e, l, ends') = reference_Ends p n name key c h ends in omega arith

abbrev Resolves : Palette → ℕ → ℕ → String → ℕ → String → Type 0
Resolves p left fuel name depth original =
    (r : Resolved) × (resolve_at p fuel name depth original ≡ done r) × Answers p (suc left) name r

-- All branches but the one in which a reference names a reference.
first_lookup :
    (p : Palette) (left fuel : ℕ) (name : String) (depth : ℕ) (original : String)
    → ((key next key' : String)
        → as_palette_key name ≡ some key
        → lookup key p ≡ some next
        → as_palette_key next ≡ some key'
        → Resolves p left (suc fuel) name depth original)
    → Resolves p left (suc fuel) name depth original
first_lookup p left fuel name depth original reference = elim (Option-cases (as_palette_key name)) [
  | inl plain ↦
      (color name, at_plain p fuel name depth original plain, (0, omega arith, (refl, plain)))
  | inr (key, h) ↦ elim (Option-cases (lookup key p)) [
    | inl missing ↦ (
      palette_key_error key,
      at_missing p fuel name depth original key h missing,
      missing_Answers p (suc left) name key h missing,
    )
    | inr (next, l) ↦ elim (Option-cases (as_palette_key next)) [
      | inl plain ↦ (
        color next,
        at_found p fuel name depth original key next h l plain,
        next_Answers p left name key next (color next) h l (0, omega arith, (refl, plain)),
      )
      | inr (key', ref) ↦ reference key next key' h l ref
    ]
  ]
]

resolve_at-Resolves :
    (p : Palette) (left fuel : ℕ) (name : String) (depth : ℕ) (original : String)
    → left + depth ≡ 4
    → left < fuel
    → Resolves p left fuel name depth original
resolve_at-Resolves p left zero name depth original q lt = absurd (omega arith)
resolve_at-Resolves p zero (suc fuel) name depth original q lt =
    first_lookup p zero fuel name depth original (λ key next key' h l ref. (
      palette_recursive_key_error original next depth,
      at_reference p fuel name depth original key next key' h l ref ∙ ground arith,
      next_Answers p 0 name key next (palette_recursive_key_error original next depth) h l
          (limit_Answers p next key' original depth ref),
    ))
resolve_at-Resolves p (suc n) (suc fuel) name depth original q lt =
    first_lookup p (suc n) fuel name depth original (λ key next key' h l ref.
      let (r, e, a) =
        resolve_at-Resolves p n fuel next (depth + 1) original (omega arith) (omega arith) in
      (
        r,
        at_reference p fuel name depth original key next key' h l ref ∙ ground arith ∙ e,
        next_Answers p (suc n) name key next r h l a,
      ))

-- `ResolveColor` always returns. It returns the colour in which the references of the palette end,
-- if they end within four lookups, and an error exactly if they do not.
pub resolve_color-Answers :
    (p : Palette) (name : String)
    → (r : Resolved) × (resolve_color p name ≡ done r) × Answers p 4 name r
unfolding resolve_color
resolve_color-Answers p name = resolve_at-Resolves p 3 4 name 1 name refl (omega arith)
