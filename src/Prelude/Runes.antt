-- ===== src/Prelude/Runes.antt =====
-- Go's strings as sequences of runes, and the functions of `strings` and `fmt` that the code uses.
use Prim.Native.Char.{Char, code}
use Prim.Native.Nat.{ℕ, zero, suc, ◌/◌, ◌%◌}
use Prim.Native.String.{String}
use mathlib.Core.Path.{◌≡◌, refl, ap}
use mathlib.Core.Logic.{◌↔◌}
use mathlib.Core.Bool.{Bool, true, false}
use mathlib.Core.List.{List, [], ◌∷◌, ◌++◌}
use mathlib.Core.Option.{Option, none, some}
use text.Mathlib.TextEquality.{Char-path}
use prompto.Prelude.Tests.{Comparable, eqb, eqb_iff, ltb, if◌then◌else◌}

abbrev pub Runes : Type 0
Runes = List Char

abbrev pub runes : String → Runes
runes String.[] = []
runes (String.◌∷◌ c s) = c ∷ runes s

abbrev pub text_of : Runes → String
text_of [] = String.[]
text_of (c ∷ s) = String.◌∷◌ c (text_of s)

abbrev pub is : ℕ → Char → Bool
is n c = eqb (code c) n

instance abbrev pub char_comparable : Comparable Char
char_comparable = record { equals = λ a b. eqb (code a) (code b); equals_iff = same }
  where
    same : (a b : Char) → (eqb (code a) (code b) ≡ true) ↔ (a ≡ b)
    same a b = (
      λ h. Char-path a b ((eqb_iff (code a) (code b)).0 h),
      λ h. (eqb_iff (code a) (code b)).1 (ap code h),
    )

abbrev pub is_empty {ℓ} : {A : Type ℓ} → List A → Bool
is_empty [] = true
is_empty (x ∷ xs) = false

-- `strings.NewReplacer` with pairs whose old strings are single runes, and `strings.ReplaceAll`.
unfoldable pub replace : (Char → Runes) → Runes → Runes
replace f [] = []
replace f (c ∷ s) = f c ++ replace f s

-- `strings.Cut` at a single rune: what stands before its first occurrence, and what stands behind it.
unfoldable pub cut : ℕ → Runes → Runes × Bool × Runes
cut sep [] = ([], false, [])
cut sep (c ∷ s) =
    let (before, found, after) = cut sep s in
    if is sep c then ([], true, s) else (c ∷ before, found, after)

-- What follows a prefix of a text, for `strings.HasPrefix`.
unfoldable pub behind : Runes → Runes → Option Runes
behind [] s = some s
behind (p ∷ prefix) [] = none
behind (p ∷ prefix) (c ∷ s) =
    let rest = behind prefix s in if eqb (code p) (code c) then rest else none

abbrev rune_at : Runes → ℕ → Char
rune_at [] i = "0"
rune_at (c ∷ s) zero = c
rune_at (c ∷ s) (suc i) = rune_at s i

abbrev digit : ℕ → Char
digit n = rune_at (runes "0123456789") n

-- The decimal digits of a number, with fuel, in front of `tail`.
unfoldable decimal_at : ℕ → ℕ → Runes → Runes
decimal_at zero n tail = tail
decimal_at (suc fuel) n tail = elim (ltb n 10) [
  | true ↦ digit n ∷ tail
  | false ↦ decimal_at fuel (n / 10) (digit (n % 10) ∷ tail)
]

-- `%d`: a number has no more digits than its value and one.
unfoldable pub decimal : ℕ → Runes
unfolding decimal_at
decimal n = decimal_at (suc n) n []

abbrev first_argument : List Runes → Runes
first_argument [] = []
first_argument (a ∷ args) = a

abbrev later_arguments : List Runes → List Runes
later_arguments [] = []
later_arguments (a ∷ args) = args

-- `fmt.Sprintf` for formats of `%s`, `%d` and `%%`, with the arguments as their texts, as many as
-- the format has verbs.
unfoldable pub sprintf : Runes → List Runes → Runes
sprintf [] args = []
sprintf (a ∷ []) args = a ∷ []
sprintf (a ∷ b ∷ format) args = elim (is b'%' a) [
  | false ↦ a ∷ sprintf (b ∷ format) args
  | true ↦ elim (is b'%' b) [
    | true ↦ b ∷ sprintf format args
    | false ↦ first_argument args ++ sprintf format (later_arguments args)
  ]
]

sprintf_run :
    sprintf (runes "%%{\u{1b}[%d%s%%}") (decimal 120 ∷ runes "B" ∷ []) ≡ runes "%{\u{1b}[120B%}"
unfolding sprintf decimal
sprintf_run = refl

-- No rune of a text is that one.
abbrev pub Lacks : ℕ → Runes → Type 0
Lacks n [] = Unit
Lacks n (c ∷ s) = (is n c ≡ false) × Lacks n s

pub text_of-runes : (s : String) → text_of (runes s) ≡ s
text_of-runes String.[] = refl
text_of-runes (String.◌∷◌ c s) = ap (String.◌∷◌ c) (text_of-runes s)

pub cut-Lacks : (sep : ℕ) (s : Runes) → Lacks sep s → cut sep s ≡ (s, false, [])
unfolding cut
cut-Lacks sep [] h = refl
cut-Lacks sep (c ∷ s) h = rw (cut-Lacks sep s h.1, h.0) refl

pub cut-append :
    (c : Char) (s t : Runes) → Lacks (code c) s → cut (code c) (s ++ c ∷ t) ≡ (s, true, t)
unfolding cut
cut-append c [] t h = rw (eqb_iff (code c) (code c)).1 refl
cut-append c (d ∷ s) t h = rw (cut-append c s t h.1, h.0) refl

pub Lacks-append : (n : ℕ) (s t : Runes) → Lacks n s → Lacks n t → Lacks n (s ++ t)
Lacks-append n [] t h k = k
Lacks-append n (c ∷ s) t h k = (h.0, Lacks-append n s t h.1 k)
