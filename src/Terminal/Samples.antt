-- ===== src/Terminal/Samples.antt =====
-- A terminal for the tests of the writer: black on white, in a shell of no special formats, and bash.
use text.Mathlib.TextEquality.{eq_iff}
use prompto.Prelude.{
  ℕ, Bool, true, false, [], ◌∷◌, Option, none, some, String, List, ◌≡◌, refl, arith, ◌==◌,
  string_comparable, if◌then◌else◌,
}
use prompto.Prelude.Outcome.{Outcome, done, panic, stuck}
use prompto.Color.Keywords.{Set, resolve, background_keyword, foreground_keyword}
use prompto.Color.Keywords.Resolution.{IsOutward, IsOutwardSet, AreSettled}
use prompto.Color.Keywords.Rounds.{resolve-Ends}
use prompto.Color.Ansi.{Gookit, defaults}
use prompto.Shell.Formats.{get_formats}
use prompto.Terminal.Output.{Terminal}

abbrev or_given : String → Outcome String → String
or_given c (done r) = r
or_given c panic = c
or_given c stuck = c

-- Three rounds are enough for such colours.
unfoldable pub resolved_within : Option Set → Option (List (Option Set)) → String → String
resolved_within current parents c = or_given c (resolve 3 current parents c)

pub resolves_within :
    (current : Option Set) (parents : Option (List (Option Set)))
    → IsOutwardSet current
    → AreSettled parents
    → (c : String)
    → (fuel : ℕ) × (resolve fuel current parents c ≡ done (resolved_within current parents c))
unfolding resolved_within
resolves_within current parents o a c =
    let (r, e, settled) = resolve-Ends 3 current parents c (omega arith) o a in (3, rw e refl)

abbrev gookit : Gookit
gookit = record {
  c256 = λ n is_background. "38;5;1";
  hex = λ c is_background. some (if is_background then "48;2;1;2;3" else "38;2;1;2;3", "38;5;2");
}

abbrev black_on_white : Set
black_on_white = record { background = "white"; foreground = "black" }

pub is_outward :
    (c : String)
    → (c == background_keyword) ≡ false
    → (c == foreground_keyword) ≡ false
    → IsOutward c
is_outward c h k =
    (ground (arith, eq_iff c background_keyword), ground (arith, eq_iff c foreground_keyword))

unfoldable pub terminal : String → Bool → String → Terminal
unfolding get_formats
terminal shell plain background_color = record {
  current_colors = some black_on_white;
  parent_colors = some (none ∷ []);
  background_color = background_color;
  colors = defaults gookit true none;
  plain = plain;
  interactive = false;
  shell = shell;
  formats = get_formats shell;
  rune_width = λ c. 1;
  resolved = resolved_within (some black_on_white) (some (none ∷ []));
  resolves =
      resolves_within (some black_on_white) (some (none ∷ []))
        (is_outward "white" refl refl, is_outward "black" refl refl) (tt, tt);
}

abbrev pub no_background : Set
no_background = record { background = ""; foreground = "black" }

-- A terminal whose segment has no background.
unfoldable pub bare_terminal : Terminal
unfolding terminal
bare_terminal = record (terminal "shell" false "") {
  current_colors = some no_background;
  resolved = resolved_within (some no_background) (some (none ∷ []));
  resolves =
      resolves_within (some no_background) (some (none ∷ []))
        (is_outward "" refl refl, is_outward "black" refl refl) (tt, tt);
}
