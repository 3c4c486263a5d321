-- ===== src/Daemon/DeviceCache.antt =====
-- src/daemon/cache.go: rendered segments by key, with a time to live.
-- Times and durations are integers of nanoseconds; `time.Now()` is the argument `now`. `Get` takes
-- the lock twice: `read_section`, then `expire_section`, which deletes if the entry had expired.
pub mod Expiry
use prompto.Prelude.{
  ℕ, Bool, true, false, not, ◌&&◌, ◌*◌, Option, none, some, List, [], ◌∷◌, String, if◌then◌else◌,
  string_comparable, length,
}
use prompto.Prelude.Int.{ℤ, pos, ◌+ℤ◌, ltb_ℤ, is_neg, eqb_zero}
use prompto.Prelude.Dict.{Dict, lookup, insert, delete, keep_values}

-- `prompt.DeviceCacheEntry`.
pub record SegmentRenderValue : Type 0 where
  pub rendered_at : ℤ
  pub text : String
  pub foreground : String
  pub background : String

pub record DeviceCacheEntry : Type 0 where
  pub expires_at : ℤ
  pub value : SegmentRenderValue
  pub infinite : Bool

pub record DeviceCache : Type 0 where
  pub entries : Dict String DeviceCacheEntry
  pub default_ttl : ℤ

-- 7 * 24 * time.Hour
abbrev pub default_device_cache_ttl : ℤ
default_device_cache_ttl = pos (7 * 24 * 3600 * 1_000_000_000)

unfoldable pub new_device_cache : DeviceCache
new_device_cache = record { entries = []; default_ttl = default_device_cache_ttl }

unfoldable pub set_default_ttl : DeviceCache → ℤ → DeviceCache
set_default_ttl c ttl = record c { default_ttl = ttl }

unfoldable pub get_default_ttl : DeviceCache → ℤ
get_default_ttl c = c.default_ttl

abbrev pub effective_ttl : DeviceCache → ℤ → ℤ
effective_ttl c ttl = if eqb_zero ttl then c.default_ttl else ttl

-- `time.Time{}`.
abbrev pub zero_time : ℤ
zero_time = pos 0

unfoldable pub set : DeviceCache → String → SegmentRenderValue → ℤ → ℤ → DeviceCache
unfolding ◌+ℤ◌
set c key v ttl now =
    let effective = effective_ttl c ttl in
    let written =
      insert key (record { expires_at = now +ℤ effective; value = v; infinite = is_neg effective })
        c.entries in
    record c {
      entries =
          if is_neg effective
          then insert key (record { expires_at = zero_time; value = v; infinite = true }) written
          else written;
    }

-- `!entry.infinite && now.After(entry.expiresAt)`
abbrev pub expired : ℤ → DeviceCacheEntry → Bool
expired now e = not e.infinite && ltb_ℤ e.expires_at now

unfoldable pub delete_key : DeviceCache → String → DeviceCache
delete_key c key = record c { entries = delete key c.entries }

-- The section of `Get` under the read lock, with whether it found an entry that has expired.
unfoldable pub read_section : DeviceCache → String → ℤ → Option SegmentRenderValue × Bool
read_section c key now = elim (lookup key c.entries) [
  | none ↦ (none, false)
  | some e ↦ if expired now e then (none, true) else (some e.value, false)
]

-- The section of `Get` under the write lock, which does not look at the entry again.
unfoldable pub expire_section : DeviceCache → String → Bool → DeviceCache
expire_section c key stale = if stale then record c { entries = delete key c.entries } else c

-- Both sections, with nothing between them.
unfoldable pub get : DeviceCache → String → ℤ → Option SegmentRenderValue × DeviceCache
unfolding read_section expire_section
get c key now = let (found, stale) = read_section c key now in (found, expire_section c key stale)

unfoldable pub clear : DeviceCache → DeviceCache
clear c = record c { entries = [] }

unfoldable pub count : DeviceCache → ℕ
count c = length c.entries

unfoldable pub evict_expired : DeviceCache → ℤ → DeviceCache
evict_expired c now = record c { entries = keep_values (λ e. not (expired now e)) c.entries }
