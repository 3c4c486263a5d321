-- ===== src/Daemon/RenderPipeline/Hubs.antt =====
-- What src/daemon/render_pipeline.go relies on from a session's update hub, and that the hub of
-- src/daemon/update_hub.go gives it.
use prompto.Prelude.{ℕ, ◌+◌, ◌^◌, ◌<◌, ◌≡◌, refl, ap, ◌∙◌, [], ◌∷◌, Option, none, some, String}
use prompto.Prelude.Outcome.{Outcome, done, panic, stuck}
use prompto.Daemon.UpdateHub.{
  new_session_update_hub, UpdateSnapshot, State, publish, last, sequence,
}
use prompto.Daemon.UpdateHub.Invariant.{IsValid, publish-IsValid}
use prompto.Daemon.UpdateHub.Runs.{new_state, new-IsValid}
use prompto.Daemon.RenderPipeline.{HubOps}

-- A new hub has published nothing, and each update is numbered next and is the last.
pub record HubLaws {H : Type 0} (ops : HubOps H) (IsGood : H → Type 0) : Type 0 where
  pub new_good : IsGood ops.new_hub
  pub new_sequence : ops.sequence ops.new_hub ≡ 0
  pub new_last : ops.last ops.new_hub ≡ none
  pub publish_good :
      (h : H) (payload : String) (id : ℕ)
      → IsGood h
      → ops.sequence h + 1 < 2 ^ 63
      → IsGood (ops.publish h payload id)
        × (ops.sequence (ops.publish h payload id) ≡ ops.sequence h + 1)
        × (ops.last (ops.publish h payload id)
            ≡ some (record { payload = payload; render_id = id; sequence = ops.sequence h + 1 }))

-- The hub after a publish that does not panic.
abbrev state_of : State → Outcome (UpdateSnapshot × State) → State
state_of st (done (s, st')) = st'
state_of st panic = st
state_of st stuck = st

abbrev snapshot_of : Outcome (Option UpdateSnapshot) → Option UpdateSnapshot
snapshot_of (done o) = o
snapshot_of panic = none
snapshot_of stuck = none

abbrev pub update_hub_ops : HubOps State
update_hub_ops = record {
  new_hub = new_state;
  publish = λ st payload id. state_of st (publish st payload (id ∷ []));
  sequence = λ st. sequence st.hub;
  last = λ st. snapshot_of (last st.hub);
}

new_last_lem : last new_state.hub ≡ done none
unfolding last new_session_update_hub
new_last_lem = refl

-- The session update hub is what the pipeline relies on: a new one has published nothing; publishing
-- on a valid hub that has published fewer than 2 ^ 63 - 1 updates numbers the update next, makes it
-- the last one, with the payload and the render given, and leaves the hub valid.
pub update_hub-HubLaws : HubLaws update_hub_ops IsValid
unfolding new_session_update_hub sequence
update_hub-HubLaws = record {
  new_good = new-IsValid;
  new_sequence = refl;
  new_last = ap snapshot_of new_last_lem;
  publish_good = λ st payload id v room.
      let (st', e, n, m, l, w, _, _) = publish-IsValid st payload (id ∷ []) v room in
      rw e (
        w,
        m ∙ n,
        ap snapshot_of l
            ∙ ap (λ k. some (record { payload = payload; render_id = id; sequence = k })) n,
      );
}
