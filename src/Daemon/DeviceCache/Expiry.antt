-- ===== src/Daemon/DeviceCache/Expiry.antt =====
-- Laws of src/daemon/cache.go: what a lookup finds, now and later.
use prompto.Prelude.{
  ◌⊎◌, ◌≡◌, refl, sym, ap, ◌∙◌, subst, inl, inr, true, false, not, ◌&&◌, Option, none, some, String,
  arith, if◌then◌else◌, string_comparable, ◌==◌, Bool-cases, Option-cases,
}
use text.Mathlib.TextEquality.{eq_iff}
use prompto.Prelude.Int.{ℤ, ◌+ℤ◌, ◌≤ℤ◌, ltb_ℤ, is_neg}
use prompto.Prelude.Dict.{
  eq_self, Distinct, lookup, keep_values, keep_if, keep_if-some, lookup-insert, lookup-insert_twice,
  lookup-delete, lookup-keep_values,
}
use prompto.Daemon.DeviceCache.{
  expire_section, read_section, delete_key, SegmentRenderValue, DeviceCacheEntry, DeviceCache,
  effective_ttl, set, expired, get, zero_time, evict_expired,
}

-- What a lookup at `now` finds.
abbrev pub found : DeviceCache → String → ℤ → Option SegmentRenderValue
found c key now = (get c key now).0

abbrev pub IsValid : DeviceCache → Type 0
IsValid c = Distinct c.entries

abbrev value_of : ℤ → Option DeviceCacheEntry → Option SegmentRenderValue
value_of now none = none
value_of now (some e) = if expired now e then none else some e.value

found_lem :
    (c : DeviceCache) (key : String) (now : ℤ)
    → found c key now ≡ value_of now (lookup key c.entries)
unfolding get
found_lem c key now = ground arith

expired_mono :
    (now later : ℤ) (e : DeviceCacheEntry)
    → now ≤ℤ later
    → expired now e ≡ true
    → expired later e ≡ true
expired_mono now later e le h = ground arith

-- The entry that `set` writes.
abbrev stored : DeviceCache → SegmentRenderValue → ℤ → ℤ → DeviceCacheEntry
stored c v ttl now =
    if is_neg (effective_ttl c ttl)
    then record { expires_at = zero_time; value = v; infinite = true }
    else record { expires_at = now +ℤ effective_ttl c ttl; value = v; infinite = false }

lookup-set :
    (c : DeviceCache) (key other : String) (v : SegmentRenderValue) (ttl now : ℤ)
    → lookup other (set c key v ttl now).entries
      ≡ (if key == other then some (stored c v ttl now) else lookup other c.entries)
unfolding set
lookup-set c key other v ttl now =
    let eff = effective_ttl c ttl in
    let forever : DeviceCacheEntry = record {
      expires_at = zero_time;
      value = v;
      infinite = true;
    } in
    elim (Bool-cases (is_neg eff)) [
      | inl neg ↦ rw neg (
          lookup-insert_twice key other
            (record { expires_at = now +ℤ eff; value = v; infinite = true }) forever c.entries)
      | inr non ↦ rw non (
          lookup-insert key other (record { expires_at = now +ℤ eff; value = v; infinite = false })
            c.entries)
    ]

-- What is stored is found until its time is over: forever if the effective time to live is negative,
-- the default standing in for 0. Every other key is found as before.
pub found-set :
    (c : DeviceCache) (key other : String) (v : SegmentRenderValue) (ttl now later : ℤ)
    → found (set c key v ttl now) other later ≡ (
        if key == other
        then if not (is_neg (effective_ttl c ttl)) && ltb_ℤ (now +ℤ effective_ttl c ttl) later
          then none
          else some v
        else found c other later)
found-set c key other v ttl now later =
    found_lem (set c key v ttl now) other later
    ∙ rw (lookup-set c key other v ttl now, found_lem c other later) (ground arith)

lookup-delete_key :
    (c : DeviceCache) (key other : String)
    → lookup other (delete_key c key).entries
      ≡ (if key == other then none else lookup other c.entries)
unfolding delete_key
lookup-delete_key c key other = lookup-delete key other c.entries

get_missing :
    (c : DeviceCache) (key : String) (now : ℤ)
    → lookup key c.entries ≡ none
    → get c key now ≡ (none, c)
unfolding get
get_missing c key now h = rw (h, get, read_section)

get-expired :
    (c : DeviceCache) (key : String) (now : ℤ) (e : DeviceCacheEntry)
    → lookup key c.entries ≡ some e
    → expired now e ≡ true
    → get c key now ≡ (none, delete_key c key)
unfolding get delete_key
get-expired c key now e h x = rw (h, get, read_section) (rw x)

get_fresh :
    (c : DeviceCache) (key : String) (now : ℤ) (e : DeviceCacheEntry)
    → lookup key c.entries ≡ some e
    → expired now e ≡ false
    → get c key now ≡ (some e.value, c)
unfolding get
get_fresh c key now e h x = rw (h, get, read_section) (rw x)

dropped :
    (c : DeviceCache) (key other : String) (e : DeviceCacheEntry) (now later : ℤ)
    → now ≤ℤ later
    → lookup key c.entries ≡ some e
    → expired now e ≡ true
    → value_of later (if key == other then none else lookup other c.entries)
      ≡ value_of later (lookup other c.entries)
dropped c key other e now later le h over = elim (Bool-cases (key == other)) [
  | inl same ↦ rw same (
      rw (subst (λ k. lookup k c.entries ≡ some e) ((eq_iff key other).0 same) h)
        (rw (expired_mono now later e le over)))
  | inr differs ↦ rw differs
]

-- An entry that eviction drops would not have been found later.
kept_value :
    (o : Option DeviceCacheEntry) (now later : ℤ)
    → now ≤ℤ later
    → value_of later (keep_if (λ e. not (expired now e)) o) ≡ value_of later o
kept_value none now later le = refl
kept_value (some e) now later le = elim (Bool-cases (expired now e)) [
  | inl over ↦ rw over (rw (expired_mono now later e le over))
  | inr fresh ↦ rw fresh
]

fresh_of :
    (o : Option DeviceCacheEntry) (e : DeviceCacheEntry) (now : ℤ)
    → keep_if (λ x. not (expired now x)) o ≡ some e
    → expired now e ≡ false
fresh_of none e now h = cc
fresh_of (some x) e now h =
    let (over, same) = keep_if-some (λ y. not (expired now y)) x e h in
    subst (λ y. expired now y ≡ false) same (ground arith)

lookup-evict :
    (c : DeviceCache) (other : String) (now : ℤ)
    → lookup other (keep_values (λ e. not (expired now e)) c.entries)
      ≡ keep_if (λ e. not (expired now e)) (lookup other c.entries)
    → lookup other (evict_expired c now).entries
      ≡ keep_if (λ e. not (expired now e)) (lookup other c.entries)
unfolding evict_expired
lookup-evict c other now h = h

-- Dropping what has expired, on a lookup of any key, changes no later lookup.
pub found-get :
    (c : DeviceCache) (key other : String) (now later : ℤ)
    → now ≤ℤ later
    → found (get c key now).1 other later ≡ found c other later
found-get c key other now later le = elim (Option-cases (lookup key c.entries)) [
  | inl missing ↦ rw (get_missing c key now missing)
  | inr (e, h) ↦ elim (Bool-cases (expired now e)) [
    | inl over ↦ rw (get-expired c key now e h over) (
        found_lem (delete_key c key) other later
        ∙ rw (lookup-delete_key c key other, found_lem c other later)
            (dropped c key other e now later le h over))
    | inr fresh ↦ rw (get_fresh c key now e h fresh)
  ]
]

-- Nor does evicting all that has expired; and what stays has not expired.
pub found-evict_expired :
    (c : DeviceCache) (other : String) (now later : ℤ)
    → IsValid c
    → now ≤ℤ later
    → (found (evict_expired c now) other later ≡ found c other later)
      × ((lookup other (evict_expired c now).entries ≡ none)
          ⊎ ((e : DeviceCacheEntry) × (lookup other (evict_expired c now).entries ≡ some e)
              × (expired now e ≡ false)))
found-evict_expired c other now later v le =
    let kept = lookup-keep_values (λ e. not (expired now e)) other c.entries v in
    (
      found_lem (evict_expired c now) other later
          ∙ ap (value_of later) (lookup-evict c other now kept)
          ∙ kept_value (lookup other c.entries) now later le
          ∙ sym (found_lem c other later),
      elim (Option-cases (lookup other (evict_expired c now).entries)) [
        | inl gone ↦ inl gone
        | inr (e, h) ↦ inr (
          e,
          h,
          fresh_of (lookup other c.entries) e now (sym (lookup-evict c other now kept) ∙ h),
        )
      ],
    )

-- An entry does not expire at the time that it is stored.
ltb_ℤ-now : (now ttl : ℤ) → is_neg ttl ≡ false → ltb_ℤ (now +ℤ ttl) now ≡ false
unfolding ◌+ℤ◌
ltb_ℤ-now now ttl h = ground arith

found-set_now :
    (c : DeviceCache) (key : String) (v : SegmentRenderValue) (ttl now : ℤ)
    → found (set c key v ttl now) key now ≡ some v
found-set_now c key v ttl now =
    found-set c key key v ttl now now
    ∙ rw (eq_self key) (elim (Bool-cases (is_neg (effective_ttl c ttl))) [
      | inl neg ↦ rw neg
      | inr non ↦ rw (non, ltb_ℤ-now now (effective_ttl c ttl) non)
    ])

-- If an entry has expired when the first section of `Get` reads it, and a `Set` of the same key comes
-- between the two sections, then a lookup finds what was stored before the second section, and finds
-- nothing after it.
pub get_race :
    (c : DeviceCache) (key : String) (e : DeviceCacheEntry) (v : SegmentRenderValue) (ttl now : ℤ)
    → lookup key c.entries ≡ some e
    → expired now e ≡ true
    → let (read, stale) = read_section c key now in
      (found (set c key v ttl now) key now ≡ some v)
      × (found (expire_section (set c key v ttl now) key stale) key now ≡ none)
unfolding read_section expire_section delete_key
get_race c key e v ttl now h over = (
  found-set_now c key v ttl now,
  ap (λ stale. found (expire_section (set c key v ttl now) key stale) key now) {y = true}
        (rw (h, read_section) (rw over))
      ∙ found_lem (delete_key (set c key v ttl now) key) key now
      ∙ ap (value_of now) (lookup-delete_key (set c key v ttl now) key key)
      ∙ rw (eq_self key),
)
