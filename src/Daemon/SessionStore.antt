-- ===== src/Daemon/SessionStore.antt =====
-- src/daemon/session_store.go: the update hub of each session. A hub is named by a number, since
-- `Hub` returns a pointer that callers keep; the registry beside it is that of Registry.antt.
use prompto.Prelude.{
  ℕ, suc, ◌<◌, ◌≡◌, sym, ◌∙◌, inl, inr, [], Option, none, some, String, arith, string_comparable,
  length, Option-cases,
}
use prompto.Prelude.Dict.{
  Dict, lookup, insert, delete, lookup-insert_self, lookup-insert_cases, lookup-delete_self,
}
use prompto.Daemon.Registry.{EngineRegistry, remove_session, reset}

pub record PromptSessionStore : Type 0 where
  pub registry : Option EngineRegistry
  pub hubs : Dict String ℕ
  pub next_hub : ℕ

unfoldable pub new_prompt_session_store : Option EngineRegistry → PromptSessionStore
new_prompt_session_store registry = record { registry = registry; hubs = []; next_hub = 0 }

-- The session's hub, a new one if it has none.
unfoldable pub hub : PromptSessionStore → String → ℕ × PromptSessionStore
hub store id = elim (lookup id store.hubs) [
  | some h ↦ (h, store)
  | none ↦ (
    store.next_hub,
    record store { hubs = insert id store.next_hub store.hubs; next_hub = suc store.next_hub },
  )
]

abbrev on_registry :
    (EngineRegistry → EngineRegistry) → Option EngineRegistry → Option EngineRegistry
on_registry f none = none
on_registry f (some r) = some (f r)

-- `store.RemoveSession`.
unfoldable pub remove : PromptSessionStore → String → PromptSessionStore
remove store id = record store {
  hubs = delete id store.hubs;
  registry = on_registry (λ r. remove_session r id) store.registry;
}

unfoldable pub count : PromptSessionStore → ℕ
count store = length store.hubs

unfoldable pub reset_all : PromptSessionStore → PromptSessionStore
reset_all store = record store { hubs = []; registry = on_registry reset store.registry }

-- Hubs are told apart by session, and a new one is new.
pub record IsValid (store : PromptSessionStore) : Type 0 where
  pub made : (i : String) (h : ℕ) → lookup i store.hubs ≡ some h → h < store.next_hub
  pub own :
      (i j : String) (h : ℕ) → lookup i store.hubs ≡ some h → lookup j store.hubs ≡ some h → i ≡ j

hub_some :
    (store : PromptSessionStore) (id : String) (h : ℕ)
    → lookup id store.hubs ≡ some h
    → hub store id ≡ (h, store)
unfolding hub
hub_some store id h e = rw (e, hub)

abbrev with_hub : PromptSessionStore → String → PromptSessionStore
with_hub store id = record store {
  hubs = insert id store.next_hub store.hubs;
  next_hub = suc store.next_hub;
}

hub_none :
    (store : PromptSessionStore) (id : String)
    → lookup id store.hubs ≡ none
    → hub store id ≡ (store.next_hub, with_hub store id)
unfolding hub
hub_none store id e = rw (e, hub)

with_hub-IsValid :
    (store : PromptSessionStore) (id : String) → IsValid store → IsValid (with_hub store id)
with_hub-IsValid store id v = record {
  made = λ i h e. elim (lookup-insert_cases id i store.next_hub h store.hubs e) [
    | inl (_, q) ↦ omega arith
    | inr (_, e') ↦ omega (arith, v.made i h e')
  ];
  own = λ i j h e f. elim (lookup-insert_cases id i store.next_hub h store.hubs e) [
    | inl (p, q) ↦ elim (lookup-insert_cases id j store.next_hub h store.hubs f) [
      | inl (p', q') ↦ sym p ∙ p'
      | inr (_, f') ↦ absurd (omega (arith, v.made j h f'))
    ]
    | inr (_, e') ↦ elim (lookup-insert_cases id j store.next_hub h store.hubs f) [
      | inl (_, q') ↦ absurd (omega (arith, v.made i h e'))
      | inr (_, f') ↦ v.own i j h e' f'
    ]
  ];
}

-- `Hub` gives one session the same hub until the session is removed, and no two sessions the same.
pub hub_stable :
    (store : PromptSessionStore) (id : String)
    → IsValid store
    → IsValid (hub store id).1
      × (hub (hub store id).1 id ≡ ((hub store id).0, (hub store id).1))
      × (lookup id (remove (hub store id).1 id).hubs ≡ none)
unfolding remove
hub_stable store id v = elim (Option-cases (lookup id store.hubs)) [
  | inl missing ↦ rw (hub_none store id missing) (
    with_hub-IsValid store id v,
    hub_some (with_hub store id) id store.next_hub
        (lookup-insert_self id store.next_hub store.hubs),
    lookup-delete_self id (insert id store.next_hub store.hubs),
  )
  | inr (h, e) ↦
      rw (hub_some store id h e) (v, hub_some store id h e, lookup-delete_self id store.hubs)
]
