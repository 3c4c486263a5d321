-- ===== src/Daemon/Registry/Invariant.antt =====
-- What holds of src/daemon/registry.go between two calls.
use prompto.Prelude.{
  ℕ, suc, ◌+◌, ◌^◌, ◌<◌, ◌≤◌, ◌≡◌, refl, sym, ◌∙◌, ◌≢◌, ◌⊎◌, inl, inr, Bool, true, false, not, ◌&&◌,
  ◌||◌, List, [], ◌∷◌, none, some, String, arith, eqb, eqb_iff, string_comparable, Bool-cases,
  Option-cases,
}
use prompto.Prelude.Dict.{lookup, insert, lookup-insert_cases}
use prompto.Daemon.Registry.{
  SessionState, EngineRegistry, any_render, next_render_id, retire_active, cancel_active,
}

abbrev pub contains : ℕ → List ℕ → Bool
contains c [] = false
contains c (d ∷ ds) = eqb d c || contains c ds

-- A session without a generation, or with one: a context that is not cancelled, its cancel
-- function, and an id that was handed out.
abbrev pub Paired : EngineRegistry → SessionState → Type 0
Paired r st =
    ((st.active_ctx ≡ none) × (st.active_cancel ≡ none))
    ⊎ ((ctx : ℕ) × (st.active_ctx ≡ some ctx)
        × (st.active_cancel ≡ some ctx)
        × (ctx < r.next_context)
        × (0 < st.active_id)
        × (st.active_id ≤ r.next_id)
        × (contains ctx r.cancelled ≡ false))

-- Two sessions share neither a context nor an id.
abbrev pub Apart : SessionState → SessionState → Type 0
Apart s t =
    (c d : ℕ)
    → s.active_ctx ≡ some c
    → t.active_ctx ≡ some d
    → (c ≢ d) × (s.active_id ≢ t.active_id)

pub record IsValid (r : EngineRegistry) : Type 0 where
  pub paired : (i : String) (s : SessionState) → lookup i r.sessions ≡ some s → Paired r s
  pub apart :
      (i j : String) (s t : SessionState)
      → lookup i r.sessions ≡ some s
      → lookup j r.sessions ≡ some t
      → i ≢ j
      → Apart s t
  pub old : (c : ℕ) → contains c r.cancelled ≡ true → c < r.next_context

abbrev pub Inactive : SessionState → Type 0
Inactive st = (st.active_ctx ≡ none) × (st.active_cancel ≡ none)

-- Writing a session without a generation.
pub idle-IsValid :
    (r : EngineRegistry) (i : String) (st : SessionState)
    → Inactive st
    → IsValid r
    → IsValid (record r { sessions = insert i st r.sessions })
idle-IsValid r i st idle v = record {
  paired = λ j s h. elim (lookup-insert_cases i j st s r.sessions h) [
    | inl (_, e) ↦ ground arith
    | inr (_, h') ↦ v.paired j s h'
  ];
  apart = λ j k s t hs ht n c d p q. elim (lookup-insert_cases i j st s r.sessions hs) [
    | inl (_, e) ↦ ground arith
    | inr (_, hs') ↦ elim (lookup-insert_cases i k st t r.sessions ht) [
      | inl (_, e) ↦ ground arith
      | inr (_, ht') ↦ v.apart j k s t hs' ht' n c d p q
    ]
  ];
  old = v.old;
}

abbrev pub retired : SessionState → SessionState
retired st = record st { active_ctx = none; active_cancel = none; active_id = 0 }

abbrev pub cancelling : EngineRegistry → String → SessionState → ℕ → EngineRegistry
cancelling r i st ctx = record r {
  sessions = insert i (retired st) r.sessions;
  cancelled = ctx ∷ r.cancelled;
}

-- The other sessions' contexts are not the one that is cancelled.
Paired-cancelling :
    (r : EngineRegistry) (i j : String) (st s : SessionState) (ctx : ℕ)
    → IsValid r
    → lookup i r.sessions ≡ some st
    → lookup j r.sessions ≡ some s
    → st.active_ctx ≡ some ctx
    → i ≢ j
    → Paired (cancelling r i st ctx) s
Paired-cancelling r i j st s ctx v hi hj e n = elim (v.paired j s hj) [
  | inl idle ↦ inl idle
  | inr (c, p, q, lt, pos, le, live) ↦
      inr (c, p, q, lt, pos, le, ground (arith, eqb_iff ctx c, v.apart i j st s hi hj n ctx c e p))
]

cancelling-IsValid :
    (r : EngineRegistry) (i : String) (st : SessionState) (ctx : ℕ)
    → lookup i r.sessions ≡ some st
    → st.active_ctx ≡ some ctx
    → ctx < r.next_context
    → IsValid r
    → IsValid (cancelling r i st ctx)
cancelling-IsValid r i st ctx hi e lt v =
    let w = idle-IsValid r i (retired st) (refl, refl) v in
    record {
      paired = λ j s h. elim (lookup-insert_cases i j (retired st) s r.sessions h) [
        | inl (_, q) ↦ ground arith
        | inr (n, h') ↦ Paired-cancelling r i j st s ctx v hi h' e n
      ];
      apart = w.apart;
      old = λ c h. ground (arith, v.old c, eqb_iff ctx c);
    }

retire_active-IsValid :
    (r : EngineRegistry) (i : String) (st : SessionState) (ctx n : ℕ)
    → lookup i r.sessions ≡ some st
    → st.active_ctx ≡ some ctx
    → ctx < r.next_context
    → IsValid r
    → IsValid (retire_active r i st ctx n)
unfolding retire_active
retire_active-IsValid r i st ctx n hi e lt v =
    elim (Bool-cases (not (eqb n any_render) && not (eqb st.active_id n))) [
      | inl other ↦ rw other v
      | inr ours ↦ rw ours (cancelling-IsValid r i st ctx hi e lt v)
    ]

pub cancel_active-some :
    (r : EngineRegistry) (i : String) (st : SessionState) (ctx n : ℕ)
    → lookup i r.sessions ≡ some st
    → st.active_cancel ≡ some ctx
    → cancel_active r i n ≡ retire_active r i st ctx n
unfolding cancel_active
cancel_active-some r i st ctx n h e = rw (h, cancel_active) (rw e)

pub cancel_active-none :
    (r : EngineRegistry) (i : String) (st : SessionState) (n : ℕ)
    → lookup i r.sessions ≡ some st
    → st.active_cancel ≡ none
    → cancel_active r i n ≡ r
unfolding cancel_active
cancel_active-none r i st n h e = rw (h, cancel_active) (rw e)

pub cancel_active_missing :
    (r : EngineRegistry) (i : String) (n : ℕ) → lookup i r.sessions ≡ none → cancel_active r i n ≡ r
unfolding cancel_active
cancel_active_missing r i n h = rw (h, cancel_active)

pub cancel_active-IsValid :
    (r : EngineRegistry) (i : String) (n : ℕ) → IsValid r → IsValid (cancel_active r i n)
cancel_active-IsValid r i n v = elim (Option-cases (lookup i r.sessions)) [
  | inl missing ↦ rw (cancel_active_missing r i n missing) v
  | inr (st, h) ↦ elim (v.paired i st h) [
    | inl (_, idle) ↦ rw (cancel_active-none r i st n h idle) v
    | inr (ctx, e, q, lt, _, _, _) ↦
        rw (cancel_active-some r i st ctx n h q) (retire_active-IsValid r i st ctx n h e lt v)
  ]
]

abbrev pub begun : EngineRegistry → SessionState → SessionState
begun r st = record st {
  active_ctx = some r.next_context;
  active_cancel = some r.next_context;
  active_id = next_render_id r;
}

abbrev pub beginning : EngineRegistry → String → SessionState → EngineRegistry
beginning r i st = record r {
  sessions = insert i (begun r st) r.sessions;
  next_id = next_render_id r;
  next_context = suc r.next_context;
}

Paired-beginning :
    (r : EngineRegistry) (i : String) (st s : SessionState)
    → r.next_id + 1 < 2 ^ 64
    → Paired r s
    → Paired (beginning r i st) s
Paired-beginning r i st s lt p = ground arith

not-contains_new : (r : EngineRegistry) → IsValid r → contains r.next_context r.cancelled ≡ false
not-contains_new r v = ground (arith, v.old r.next_context)

-- A session that begins has a context and an id that no other session has.
Apart-begun :
    (r : EngineRegistry) (i : String) (st s : SessionState)
    → r.next_id + 1 < 2 ^ 64
    → Paired r s
    → Apart (begun r st) s × Apart s (begun r st)
Apart-begun r i st s lt p = (λ c d e f. ground arith, λ c d e f. ground arith)

pub beginning-IsValid :
    (r : EngineRegistry) (i : String) (st : SessionState)
    → r.next_id + 1 < 2 ^ 64
    → IsValid r
    → IsValid (beginning r i st)
beginning-IsValid r i st lt v = record {
  paired = λ j s h. elim (lookup-insert_cases i j (begun r st) s r.sessions h) [
    | inl (_, e) ↦ ground (arith, not-contains_new r v)
    | inr (_, h') ↦ Paired-beginning r i st s lt (v.paired j s h')
  ];
  apart = λ j k s t hs ht n c d p q. elim (lookup-insert_cases i j (begun r st) s r.sessions hs) [
    | inl (ij, e) ↦ elim (lookup-insert_cases i k (begun r st) t r.sessions ht) [
      | inl (ik, _) ↦ absurd (n (sym ij ∙ ik))
      | inr (_, ht') ↦
          let a = (Apart-begun r i st t lt (v.paired k t ht')).0 c d in ground (arith, a)
    ]
    | inr (_, hs') ↦ elim (lookup-insert_cases i k (begun r st) t r.sessions ht) [
      | inl (_, e) ↦ let a = (Apart-begun r i st s lt (v.paired j s hs')).1 c d in ground (arith, a)
      | inr (_, ht') ↦ v.apart j k s t hs' ht' n c d p q
    ]
  ];
  old = λ c h. ground (arith, v.old c);
}
