-- ===== src/Cache/Store.antt =====
-- src/cache/store.go and src/cache/cache.go: the stores of the session and of the device. The two
-- globals differ in nothing but their name, so a store is the state. `time.Now().Unix()` is the
-- argument `now`, and a type assertion a function into `Option`.
use text.Mathlib.TextEquality.{eq_iff}
use prompto.Prelude.{
  sym, subst, ◌≡◌, refl, ◌∙◌, ap, inl, inr, Bool, true, false, not, ◌&&◌, Option, none, some,
  String, arith, if◌then◌else◌, ◌==◌, string_comparable, Bool-cases, Option-cases, [],
}
use prompto.Prelude.Int.{◌≤ℤ◌, ℤ, ◌+ℤ◌, ltb_ℤ, is_neg, eqb_zero}
use prompto.Prelude.Dict.{Dict, lookup, insert, delete, lookup-insert, lookup-delete}

pub record Entry {ℓ} (A : Type ℓ) : Type ℓ where
  pub value : A
  pub timestamp : ℤ
  pub ttl : ℤ

-- `Entry.Expired`.
abbrev pub expired {ℓ} : {A : Type ℓ} → ℤ → Entry A → Bool
expired now c = if is_neg c.ttl then false else not (ltb_ℤ now (c.timestamp +ℤ c.ttl))

if_unless {ℓ} :
    {A : Type ℓ} (b c : Bool) (x y : A)
    → (if (if b then false else c) then x else y) ≡ (if not b && c then x else y)
if_unless true c x y = refl
if_unless false c x y = refl

expired_mono {ℓ} :
    {A : Type ℓ} (now later : ℤ) (e : Entry A)
    → now ≤ℤ later
    → expired now e ≡ true
    → expired later e ≡ true
expired_mono now later e le h = ground arith

module _ {ℓ} {V : Type ℓ} where
  -- `Get`; the log is left out.
  unfoldable pub get {κ} :
      {T : Type κ}
      → (V → Option T)
      → Dict String (Entry V)
      → String
      → ℤ
      → Option T × Dict String (Entry V)
  get cast store key now = elim (lookup key store) [
    | none ↦ (none, store)
    | some entry ↦ if expired now entry then (none, delete key store) else (cast entry.value, store)
  ]

  -- `Set`, with the seconds of the duration.
  unfoldable pub set : Dict String (Entry V) → String → V → ℤ → ℤ → Dict String (Entry V)
  set store key value seconds now =
      if eqb_zero seconds
      then store
      else insert key (record { value = value; timestamp = now; ttl = seconds }) store

  unfoldable pub delete_key : Dict String (Entry V) → String → Dict String (Entry V)
  delete_key store key = delete key store

  unfoldable pub delete_all : Dict String (Entry V) → Dict String (Entry V)
  delete_all store = []

  -- What a call of `Get` returns.
  abbrev pub seen {κ} :
      {T : Type κ} → (V → Option T) → Dict String (Entry V) → String → ℤ → Option T
  seen cast store key now = (get cast store key now).0

  abbrev pub value_of {κ} : {T : Type κ} → (V → Option T) → ℤ → Option (Entry V) → Option T
  value_of cast now none = none
  value_of cast now (some entry) = if expired now entry then none else cast entry.value

  seen_lem {κ} :
      {T : Type κ} (cast : V → Option T) (store : Dict String (Entry V)) (key : String) (now : ℤ)
      → seen cast store key now ≡ value_of cast now (lookup key store)
  unfolding get
  seen_lem {T = T} cast store key now = at (lookup key store)
    where
      at :
          (o : Option (Entry V))
          → (elim o as (λ _. Option T × Dict String (Entry V)) [
            | none ↦ (none, store)
            | some entry ↦
                if expired now entry then (none, delete key store) else (cast entry.value, store)
          ]).0
            ≡ value_of cast now o
      at none = refl
      at (some e) = elim (Bool-cases (expired now e)) [ inl over ↦ rw over | inr fresh ↦ rw fresh ]

  set_kept :
      (store : Dict String (Entry V)) (key : String) (v : V) (seconds now : ℤ)
      → eqb_zero seconds ≡ false
      → set store key v seconds now
        ≡ insert key (record { value = v; timestamp = now; ttl = seconds }) store
  unfolding set
  set_kept store key v seconds now h = rw h

  set_dropped :
      (store : Dict String (Entry V)) (key : String) (v : V) (seconds now : ℤ)
      → eqb_zero seconds ≡ true
      → set store key v seconds now ≡ store
  unfolding set
  set_dropped store key v seconds now h = rw h

  -- What is stored is found, if it has the type asked for, until its seconds are over, and forever
  -- if they are negative; with 0 seconds nothing is stored. Every other key is found as before.
  pub seen-set {κ} :
      {T : Type κ} (cast : V → Option T) (store : Dict String (Entry V)) (key other : String)
      (v : V) (seconds now later : ℤ)
      → seen cast (set store key v seconds now) other later ≡ (
          if not (eqb_zero seconds) && (key == other)
          then if not (is_neg seconds) && not (ltb_ℤ later (now +ℤ seconds)) then none else cast v
          else seen cast store other later)
  seen-set cast store key other v seconds now later = elim (Bool-cases (eqb_zero seconds)) [
    | inl zero_seconds ↦ rw (set_dropped store key v seconds now zero_seconds, zero_seconds)
    | inr kept ↦
        let e : Entry V = record { value = v; timestamp = now; ttl = seconds } in
        rw (set_kept store key v seconds now kept, kept)
          (seen_lem cast (insert key e store) other later
            ∙ ap (value_of cast later) (lookup-insert key other e store)
            ∙ elim (Bool-cases (key == other)) [
              | inl same ↦
                  rw same
                    (if_unless (is_neg seconds) (not (ltb_ℤ later (now +ℤ seconds))) none (cast v))
              | inr differs ↦ rw differs (sym (seen_lem cast store other later))
            ])
  ]

  module _ {κ} {T : Type κ} (cast : V → Option T) (store : Dict String (Entry V)) (key : String)
      (now : ℤ) where
    get_missing : lookup key store ≡ none → (get cast store key now).1 ≡ store
    unfolding get
    get_missing h = rw (h, get)

    get_over :
        (e : Entry V)
        → lookup key store ≡ some e
        → expired now e ≡ true
        → (get cast store key now).1 ≡ delete key store
    unfolding get
    get_over e h over = rw (h, get) (rw over)

    get_fresh :
        (e : Entry V)
        → lookup key store ≡ some e
        → expired now e ≡ false
        → (get cast store key now).1 ≡ store
    unfolding get
    get_fresh e h fresh = rw (h, get) (rw fresh)

    dropped :
        (other : String) (later : ℤ) (e : Entry V)
        → now ≤ℤ later
        → lookup key store ≡ some e
        → expired now e ≡ true
        → value_of cast later (if key == other then none else lookup other store)
          ≡ value_of cast later (lookup other store)
    dropped other later e le h over = elim (Bool-cases (key == other)) [
      | inl same ↦ rw same (
          rw (subst (λ k. lookup k store ≡ some e) ((eq_iff key other).0 same) h)
            (rw (expired_mono now later e le over)))
      | inr differs ↦ rw differs
    ]

  -- A lookup at one time, of any key, changes no later lookup.
  pub seen-get {κ} :
      {T : Type κ} (cast : V → Option T) (store : Dict String (Entry V)) (key other : String)
      (now later : ℤ)
      → now ≤ℤ later
      → seen cast (get cast store key now).1 other later ≡ seen cast store other later
  seen-get cast store key other now later le = elim (Option-cases (lookup key store)) [
    | inl missing ↦ ap (λ m. seen cast m other later) (get_missing cast store key now missing)
    | inr (e, h) ↦ elim (Bool-cases (expired now e)) [
      | inl over ↦
          ap (λ m. seen cast m other later) (get_over cast store key now e h over)
          ∙ seen_lem cast (delete key store) other later
          ∙ ap (value_of cast later) (lookup-delete key other store)
          ∙ dropped cast store key now other later e le h over
          ∙ sym (seen_lem cast store other later)
      | inr fresh ↦ ap (λ m. seen cast m other later) (get_fresh cast store key now e h fresh)
    ]
  ]
