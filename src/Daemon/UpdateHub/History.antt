-- ===== src/Daemon/UpdateHub/History.antt =====
-- The history that src/daemon/update_hub.go keeps: contiguous, bounded, and indexed by arithmetic.
use prompto.Prelude.{
  ◌∙◌, get_elem?-drop, get_elem?-length, ℕ, zero, suc, ◌+◌, ◌-◌, ◌^◌, ◌<◌, ◌≤◌, ◌≡◌, refl, subst,
  ◌⊎◌, inl, inr, ◌≢◌, List, [], ◌∷◌, ◌++◌, none, some, arith, min, max, ltb, leb, length, get_elem?,
  get_elem?-lt-length, drop, length-append, length-drop, Bool-cases, ltb→lt, leb→le, eqb,
}
use prompto.Prelude.Outcome.{done}
use prompto.Daemon.UpdateHub.{
  UpdateSnapshot, SessionUpdateHub, history_limit, u64, at, trim, next_index, next_after_locked,
  last,
}

-- The sequence numbers count up from `n`.
abbrev pub Contiguous : ℕ → List UpdateSnapshot → Type 0
Contiguous n [] = Unit
Contiguous n (s ∷ us) = (s.sequence ≡ n) × Contiguous (suc n) us

-- A history that ends at sequence number `n`: `n + 1 - length us` is the oldest number that it holds.
pub record IsKept (n : ℕ) (us : List UpdateSnapshot) : Type 0 where
  pub contiguous : Contiguous (n + 1 - length us) us
  pub fits : length us ≤ n
  pub keeps : min n history_limit ≤ length us
  pub bounded : length us ≤ 128
  pub in_range : n < 2 ^ 63

Contiguous-append :
    (n : ℕ) (us : List UpdateSnapshot) (s : UpdateSnapshot)
    → Contiguous n us
    → s.sequence ≡ n + length us
    → Contiguous n (us ++ s ∷ [])
Contiguous-append n [] s c e = (omega arith, tt)
Contiguous-append n (u ∷ us) s c e = (c.0, Contiguous-append (suc n) us s c.1 (omega arith))

Contiguous-drop :
    (k n : ℕ) (us : List UpdateSnapshot)
    → Contiguous n us
    → k ≤ length us
    → Contiguous (n + k) (drop k us)
Contiguous-drop zero n us c h = ground (arith, c)
Contiguous-drop (suc k) n [] c h = tt
Contiguous-drop (suc k) n (u ∷ us) c h =
    let e : suc n + k ≡ n + suc k = omega arith in
    rw (← e) (Contiguous-drop k (suc n) us c.1 (omega arith))

get_elem?-Contiguous :
    (n : ℕ) (us : List UpdateSnapshot) (i : ℕ)
    → Contiguous n us
    → i < length us
    → (s : UpdateSnapshot) × (get_elem? us i ≡ some s) × (s.sequence ≡ n + i)
get_elem?-Contiguous n [] i c h = absurd (omega arith)
get_elem?-Contiguous n (u ∷ us) zero c h = (u, refl, omega arith)
get_elem?-Contiguous n (u ∷ us) (suc i) c h =
    let (s, e, q) = get_elem?-Contiguous (suc n) us i c.1 (omega arith) in (s, e, omega arith)

-- The position of an update gives its number.
pub sequence-get_elem? :
    (n : ℕ) (us : List UpdateSnapshot) (i : ℕ) (s : UpdateSnapshot)
    → IsKept n us
    → get_elem? us i ≡ some s
    → (s.sequence ≡ n + 1 - length us + i) × (i < length us)
sequence-get_elem? n us i s k h =
    let lt = get_elem?-lt-length us i h in
    let (t, e, q) = get_elem?-Contiguous _ us i k.contiguous lt in
    let same : t ≡ s = cc in
    (subst (λ (u : UpdateSnapshot). u.sequence ≡ n + 1 - length us + i) same q, lt)

-- One more update, in the history as `Publish` leaves it.
pub trim-IsKept :
    (n : ℕ) (us : List UpdateSnapshot) (s : UpdateSnapshot)
    → IsKept n us
    → n + 1 < 2 ^ 63
    → s.sequence ≡ n + 1
    → IsKept (n + 1) (trim (us ++ s ∷ []))
unfolding trim
trim-IsKept n us s k lt e =
    let len = length-append us (s ∷ []) in
    let all : Contiguous (n + 1 - length us) (us ++ s ∷ []) =
      Contiguous-append (n + 1 - length us) us s k.contiguous (omega (arith, k.fits)) in
    elim (Bool-cases (ltb 128 (length (us ++ s ∷ [])))) [
      | inl long ↦ rw long (record {
        contiguous =
            subst (λ m. Contiguous m (drop (length (us ++ s ∷ []) - 64) (us ++ s ∷ [])))
              (omega
                (arith, length-drop (length (us ++ s ∷ []) - 64) (us ++ s ∷ []), ltb→lt _ _ long))
              (Contiguous-drop (length (us ++ s ∷ []) - 64) (n + 1 - length us) (us ++ s ∷ []) all
                (omega arith));
        fits = omega (arith, length-drop (length (us ++ s ∷ []) - 64) (us ++ s ∷ []));
        keeps =
            omega (arith, length-drop (length (us ++ s ∷ []) - 64) (us ++ s ∷ []), ltb→lt _ _ long);
        bounded = omega (arith, length-drop (length (us ++ s ∷ []) - 64) (us ++ s ∷ []));
        in_range = lt;
      })
      | inr short ↦ rw short (record {
        contiguous = subst (λ m. Contiguous m (us ++ s ∷ [])) (omega arith) all;
        fits = omega arith;
        keeps = omega arith;
        bounded = ground arith;
        in_range = lt;
      })
    ]

-- The newest update is never trimmed.
pub last-trim :
    (us : List UpdateSnapshot) (s : UpdateSnapshot)
    → get_elem? (trim (us ++ s ∷ [])) (length (trim (us ++ s ∷ [])) - 1) ≡ some s
unfolding trim
last-trim us s =
    let all = us ++ s ∷ [] in
    let len = length-append us (s ∷ []) in
    let k : ℕ = length all - 64 in
    let end = get_elem?-length us s in
    elim (Bool-cases (ltb 128 (length all))) [
      | inl long ↦ rw long (
          get_elem?-drop k all (length (drop k all) - 1)
          ∙ subst (λ m. get_elem? all m ≡ some s)
              (omega (arith, length-drop k all, ltb→lt _ _ long)) end)
      | inr short ↦ rw short (subst (λ m. get_elem? all m ≡ some s) (omega arith) end)
    ]

next_index_lem :
    (hub : SessionUpdateHub) (after : ℕ)
    → after < hub.sequence
    → hub.sequence < 2 ^ 63
    → next_index hub after ≡ length hub.updates - (hub.sequence - after)
unfolding next_index
next_index_lem hub after lt r =
    let e : u64 (hub.sequence + 2 ^ 64 - after) ≡ hub.sequence - after = omega arith in
    rw e (ground arith)

-- What a subscriber that has seen `after` gets next: the oldest update held that is newer, and
-- nothing exactly if there is none.
pub next_after_locked_lem :
    (hub : SessionUpdateHub) (after : ℕ)
    → IsKept hub.sequence hub.updates
    → ((hub.sequence ≤ after) × (next_after_locked hub after ≡ done none))
      ⊎ ((s : UpdateSnapshot) × (after < hub.sequence)
          × (next_after_locked hub after ≡ done (some s))
          × (s.sequence ≡ max (after + 1) (hub.sequence + 1 - length hub.updates))
          × (get_elem? hub.updates (s.sequence - (hub.sequence + 1 - length hub.updates)) ≡ some s))
unfolding next_after_locked
next_after_locked_lem hub after k = elim (Bool-cases (leb hub.sequence after)) [
  | inl seen ↦ inl (leb→le _ _ seen, rw seen)
  | inr new ↦
      let lt : after < hub.sequence = ground arith in
      let i = next_index_lem hub after lt k.in_range in
      let (s, e, q) =
        get_elem?-Contiguous _ hub.updates (next_index hub after) k.contiguous (omega arith) in
      let j : next_index hub after ≡ s.sequence - (hub.sequence + 1 - length hub.updates) =
        omega arith in
      inr
        (s, lt, rw new (rw (e, at)), omega arith, subst (λ m. get_elem? hub.updates m ≡ some s) j e)
]

pub last_lem :
    (hub : SessionUpdateHub)
    → IsKept hub.sequence hub.updates
    → ((hub.sequence ≡ 0) × (last hub ≡ done none))
      ⊎ ((s : UpdateSnapshot) × (last hub ≡ done (some s)) × (s.sequence ≡ hub.sequence))
unfolding last
last_lem hub k = elim (Bool-cases (eqb hub.sequence 0)) [
  | inl none_yet ↦ inl (ground arith, rw none_yet)
  | inr some_yet ↦
      let nonzero : hub.sequence ≢ 0 = ground arith in
      let (s, e, q) =
        get_elem?-Contiguous _ hub.updates (length hub.updates - 1) k.contiguous (omega arith) in
      inr (s, rw some_yet (rw (e, at)), omega arith)
]
