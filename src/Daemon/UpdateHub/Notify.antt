-- ===== src/Daemon/UpdateHub/Notify.antt =====
-- The sends of src/daemon/update_hub.go, `Publish`: which channels hold what afterwards.
use prompto.Prelude.{
  ℕ, suc, ◌≡◌, refl, ap, ◌∙◌, Bool, true, false, ◌||◌, List, [], ◌∷◌, some, arith, if◌then◌else◌,
  eqb, eqb_iff, length, get_elem?, set, get_elem?-set_self, get_elem?-set_ne, get_elem?-lt-length,
  length-set,
}
use prompto.Prelude.Outcome.{done}
use prompto.Daemon.UpdateHub.{UpdateSnapshot, Channel, empty_channel, on_channel, notify}

abbrev pub contains : ℕ → List ℕ → Bool
contains i [] = false
contains i (j ∷ js) = eqb j i || contains i js

-- A channel on which one snapshot was sent before it was closed.
abbrev pub delivered : UpdateSnapshot → Channel
delivered s = record { buffer = s ∷ []; closed = true }

-- Open and empty channels, each named once.
abbrev pub Fresh : List Channel → List ℕ → Type 0
Fresh cs [] = Unit
Fresh cs (i ∷ is) = (get_elem? cs i ≡ some empty_channel) × (contains i is ≡ false) × Fresh cs is

pub Fresh-set :
    (cs : List Channel) (i : ℕ) (c : Channel) (is : List ℕ)
    → contains i is ≡ false
    → Fresh cs is
    → Fresh (set cs i c) is
Fresh-set cs i c [] h f = tt
Fresh-set cs i c (j ∷ js) h f = (
  get_elem?-set_ne cs i j c (λ e. ground (arith, eqb_iff j i)) ∙ f.0,
  f.1,
  Fresh-set cs i c js (ground arith) f.2,
)

-- The channels after the loop.
abbrev pub deliver : List ℕ → UpdateSnapshot → List Channel → List Channel
deliver [] s cs = cs
deliver (i ∷ is) s cs = deliver is s (set cs i (delivered s))

set-set : (cs : List Channel) (i : ℕ) (c d : Channel) → set (set cs i c) i d ≡ set cs i d
set-set [] i c d = refl
set-set (x ∷ cs) ℕ.zero c d = refl
set-set (x ∷ cs) (suc i) c d = ap (◌∷◌ x) (set-set cs i c d)

-- Sending to open and empty channels neither waits nor panics.
pub notify-deliver :
    (is : List ℕ) (s : UpdateSnapshot) (cs : List Channel)
    → Fresh cs is
    → notify is s cs ≡ done (deliver is s cs)
unfolding notify
notify-deliver [] s cs f = refl
notify-deliver (i ∷ is) s cs f =
    let lt = get_elem?-lt-length cs i f.0 in
    let sent : Channel = record { buffer = s ∷ []; closed = false } in
    rw (f.0, on_channel)
      (rw (get_elem?-set_self cs i sent lt, on_channel)
        (rw (set-set cs i sent (delivered s))
          (notify-deliver is s (set cs i (delivered s)) (Fresh-set cs i (delivered s) is f.1 f.2))))

pub get_elem?-deliver :
    (is : List ℕ) (s : UpdateSnapshot) (cs : List Channel) (j : ℕ)
    → Fresh cs is
    → get_elem? (deliver is s cs) j ≡ (if contains j is then some (delivered s) else get_elem? cs j)
get_elem?-deliver [] s cs j f = refl
get_elem?-deliver (i ∷ is) s cs j f =
    let lt = get_elem?-lt-length cs i f.0 in
    ground (
      arith,
      eqb_iff i j,
      get_elem?-deliver is s (set cs i (delivered s)) j (Fresh-set cs i (delivered s) is f.1 f.2),
      get_elem?-set_self cs i (delivered s) lt,
      get_elem?-set_ne cs i j (delivered s),
    )

pub length-deliver :
    (is : List ℕ) (s : UpdateSnapshot) (cs : List Channel) → length (deliver is s cs) ≡ length cs
length-deliver [] s cs = refl
length-deliver (i ∷ is) s cs =
    length-deliver is s (set cs i (delivered s)) ∙ length-set cs i (delivered s)
