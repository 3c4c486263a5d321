-- ===== src/Cache/Duration.antt =====
-- src/cache/duration.go: how long a value is kept. `parse_seconds` stands for
-- `int(d.Seconds())` of what `time.ParseDuration` returns, and `show_seconds` for
-- `(time.Duration(n) * time.Second).String()`.
use prompto.Prelude.{
  zero, suc, ◌≡◌, refl, false, Option, none, some, String, if◌then◌else◌, ◌==◌, string_comparable,
  Bool,
}
use prompto.Prelude.Int.{ℤ, pos, negsuc}

abbrev pub infinite : String
infinite = "infinite"

abbrev pub never : String
never = "none"

abbrev or_zero : Option ℤ → ℤ
or_zero none = pos 0
or_zero (some n) = n

unfoldable pub seconds : (String → Option ℤ) → String → ℤ
seconds parse_seconds d =
    if d == never then pos 0 else if d == infinite then negsuc 0 else or_zero (parse_seconds d)

unfoldable pub is_empty : String → Bool
is_empty d = d == ""

unfoldable pub to_duration : (ℤ → String) → ℤ → String
to_duration show_seconds (pos zero) = ""
to_duration show_seconds (pos (suc n)) = show_seconds (pos (suc n))
to_duration show_seconds (negsuc zero) = infinite
to_duration show_seconds (negsuc (suc n)) = show_seconds (negsuc (suc n))

shown :
    (parse_seconds : String → Option ℤ) (n : ℤ) (text : String)
    → parse_seconds text ≡ some n
    → (text == never) ≡ false
    → (text == infinite) ≡ false
    → seconds parse_seconds text ≡ n
unfolding seconds
shown parse_seconds n text h p q = rw (p, q) (rw h)

-- A number of seconds that is made a duration is read back from it, if `ParseDuration` reads what
-- `Duration.String` writes and rejects the empty text.
pub seconds-to_duration :
    (parse_seconds : String → Option ℤ) (show_seconds : ℤ → String) (n : ℤ)
    → parse_seconds (show_seconds n) ≡ some n
    → (show_seconds n == never) ≡ false
    → (show_seconds n == infinite) ≡ false
    → parse_seconds "" ≡ none
    → seconds parse_seconds (to_duration show_seconds n) ≡ n
unfolding to_duration
seconds-to_duration parse_seconds show_seconds (pos zero) h p q e = unfold seconds in rw e
seconds-to_duration parse_seconds show_seconds (pos (suc n)) h p q e =
    shown parse_seconds (pos (suc n)) (show_seconds (pos (suc n))) h p q
seconds-to_duration parse_seconds show_seconds (negsuc zero) h p q e = unfold seconds in refl
seconds-to_duration parse_seconds show_seconds (negsuc (suc n)) h p q e =
    shown parse_seconds (negsuc (suc n)) (show_seconds (negsuc (suc n))) h p q
