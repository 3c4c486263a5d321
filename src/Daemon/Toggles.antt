-- ===== src/Daemon/Toggles.antt =====
-- The segment toggles of src/daemon/daemon.go: which segments each session has switched off.
-- `shared` is what `cache.Get(cache.Session, cache.TOGGLECACHE)` returns at the time of a call. Go
-- ranges over a map in any order; what the loops below compute does not depend on it.
pub mod Parity
pub mod Sync
use prompto.Prelude.{
  Bool, true, false, not, ◌&&◌, List, [], ◌∷◌, ◌++◌, Option, none, some, String, if◌then◌else◌,
  string_comparable, ◌==◌,
}
use prompto.Prelude.Dict.{Dict, lookup, insert, delete}

abbrev pub ToggleMap : Type 0
ToggleMap = Dict String Bool

pub record Toggles : Type 0 where
  pub config_path : String
  pub segment_toggles : Dict String ToggleMap
  pub seeded_toggles : ToggleMap

-- `m[name]`, which is false for a missing name.
abbrev pub value_or_false : Option Bool → Bool
value_or_false none = false
value_or_false (some b) = b

unfoldable pub is_on : ToggleMap → String → Bool
is_on m name = value_or_false (lookup name m)

-- `cloneToggleMap`: the copy is another map, of the same content.
abbrev pub clone_toggle_map : ToggleMap → ToggleMap
clone_toggle_map source = source

-- `seededSessionToggles`.
unfoldable pub seeded_session_toggles : Toggles → String → Option ToggleMap
seeded_session_toggles d id = lookup id d.segment_toggles

-- The second section of `SessionToggles`: the first seed wins.
unfoldable pub seed : Toggles → String → ToggleMap → ToggleMap × Toggles
seed d id cloned = elim (lookup id d.segment_toggles) [
  | some seeded ↦
      (clone_toggle_map seeded, record d { segment_toggles = insert id seeded d.segment_toggles })
  | none ↦
      (clone_toggle_map cloned, record d { segment_toggles = insert id cloned d.segment_toggles })
]

unfoldable pub session_toggles : Toggles → ToggleMap → String → ToggleMap × Toggles
unfolding seed seeded_session_toggles
session_toggles d shared id = elim (seeded_session_toggles d id) [
  | some toggles ↦ (toggles, d)
  | none ↦ seed d id (clone_toggle_map shared)
]

-- One round of the loop of `ToggleSegment`.
unfoldable pub flip : String → ToggleMap → ToggleMap
unfolding is_on
flip name m = if is_on m name then delete name m else insert name true m

-- The loop.
unfoldable pub flip_all : List String → ToggleMap → ToggleMap
unfolding flip
flip_all [] m = m
flip_all (name ∷ names) m = flip_all names (flip name m)

abbrev or_empty : Option ToggleMap → ToggleMap
or_empty none = []
or_empty (some m) = m

unfoldable pub toggle_segment : Toggles → ToggleMap → String → List String → Toggles
unfolding session_toggles flip_all
toggle_segment d shared id segments =
    let d' = (session_toggles d shared id).1 in
    let current = or_empty (lookup id d'.segment_toggles) in
    record d' { segment_toggles = insert id (flip_all segments current) d'.segment_toggles }

unfoldable pub reset_toggles : Toggles → Toggles
reset_toggles d = record d { segment_toggles = []; seeded_toggles = [] }

-- What the config has gained: the loop over `current`, with the names that it marks as seeded.
unfoldable pub gained : ToggleMap → ToggleMap → List String × ToggleMap
unfolding is_on
gained [] seeded = ([], seeded)
gained ((name, on) ∷ current) seeded =
    let skipped = gained current seeded in
    let taken = gained current (insert name true seeded) in
    if not on then skipped else if is_on seeded name then skipped else (name ∷ taken.0, taken.1)

unfoldable pub turn_on : List String → ToggleMap → ToggleMap
turn_on [] m = m
turn_on (name ∷ names) m = turn_on names (insert name true m)

-- The loop over the sessions.
unfoldable pub push_all : List String → Dict String ToggleMap → Dict String ToggleMap
unfolding turn_on
push_all names [] = []
push_all names ((id, m) ∷ sessions) = (id, turn_on names m) ∷ push_all names sessions

-- What follows the first loop: nothing was added, or every session gets it.
unfoldable pub push_added : Toggles → List String → ToggleMap → Toggles
unfolding push_all
push_added d [] seeded = record d { seeded_toggles = seeded }
push_added d (name ∷ names) seeded = record d {
  seeded_toggles = seeded;
  segment_toggles = push_all (name ∷ names) d.segment_toggles;
}

unfoldable pub sync_config_toggles : Toggles → ToggleMap → Toggles
unfolding gained push_added
sync_config_toggles d shared =
    if d.config_path == ""
    then d
    else push_added d (gained shared d.seeded_toggles).0 (gained shared d.seeded_toggles).1
