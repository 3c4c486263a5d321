-- ===== src/Color/Cycle.antt =====
-- src/color/cycle.go: the sets of colours that segments take in turn.
use prompto.Prelude.{
  ℕ, zero, suc, ◌≡◌, refl, sym, ap, ◌∙◌, List, [], ◌∷◌, ◌++◌, Option, none, some, length,
}

-- `Loop`: the set at the front, if any, and the cycle with that set at its end. `append(c[1:], c[0])`
-- may write into the array behind `c`, past the end of `c`, where nothing reads.
unfoldable pub loop {ℓ} : {A : Type ℓ} → List A → Option A × List A
loop [] = (none, [])
loop (c ∷ cs) = (some c, cs ++ c ∷ [])

-- What `n` calls return, each on the cycle that the one before left.
abbrev pub loops {ℓ} : {A : Type ℓ} → ℕ → List A → List (Option A) × List A
loops zero cs = ([], cs)
loops (suc n) cs = let (c, cs') = loop cs in let (seen, cs'') = loops n cs' in (c ∷ seen, cs'')

abbrev pub all_some {ℓ} : {A : Type ℓ} → List A → List (Option A)
all_some [] = []
all_some (c ∷ cs) = some c ∷ all_some cs

append_assoc {ℓ} : {A : Type ℓ} (xs ys zs : List A) → (xs ++ ys) ++ zs ≡ xs ++ (ys ++ zs)
append_assoc [] ys zs = refl
append_assoc (x ∷ xs) ys zs = ap (λ t. x ∷ t) (append_assoc xs ys zs)

append_empty {ℓ} : {A : Type ℓ} (xs : List A) → xs ++ [] ≡ xs
append_empty [] = refl
append_empty (x ∷ xs) = ap (λ t. x ∷ t) (append_empty xs)

loops-append {ℓ} :
    {A : Type ℓ} (xs ys : List A) → loops (length xs) (xs ++ ys) ≡ (all_some xs, ys ++ xs)
unfolding loop
loops-append [] ys = ap (λ t. ([], t)) (sym (append_empty ys))
loops-append (x ∷ xs) ys =
    ap (λ t. (some x ∷ (loops (length xs) t).0, (loops (length xs) t).1))
      (append_assoc xs ys (x ∷ []))
    ∙ ap (λ r. (some x ∷ r.0, r.1)) (loops-append xs (ys ++ x ∷ []))
    ∙ ap (λ t. (some x ∷ all_some xs, t)) (append_assoc ys (x ∷ []) xs)

-- As many calls as the cycle has sets return each set once, in order, and leave the cycle as it was.
pub loops-round {ℓ} : {A : Type ℓ} (cs : List A) → loops (length cs) cs ≡ (all_some cs, cs)
loops-round cs = ap (loops (length cs)) (sym (append_empty cs)) ∙ loops-append cs []
