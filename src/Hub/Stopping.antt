-- ===== src/Hub/Stopping.antt =====
-- What a round of the workflow of crates/maxops-hub/src/deployment_workflow.rs asks for.
use maxops.Prelude.{Bool, true, ◌||◌, String, some, Result, ok, err, ◌≡◌, refl, sym, ap, ◌∙◌, arith}
use maxops.Prelude.Programs.{Program, continue_with, continue_ok, choice_true, if◌then◌else◌}
use maxops.Proto.Ids.{JobId, ChangeId}
use maxops.Proto.Json.{Value}
use maxops.Proto.Jobs.{JobRecord}
use maxops.Proto.JobState
use maxops.Proto.JobState.{JobState}
use maxops.Proto.ChangeState
use maxops.Proto.ChangeState.{ChangeState}
use maxops.Proto.Changes.{
  ChangeRecord, ChangeJobs, DeploymentAction, build, activate, verify, rollback, prepare,
}
use maxops.Store.Jobs.{find_job}
use maxops.Store.Changes.{may_become}
use maxops.Hub.Errors.{HubError}
use maxops.Hub.Sending.{found_query}
use maxops.Hub.Dispatch.{Next, stop}
use maxops.Hub.World.{World, Fleet}
use maxops.Hub.Access.{DeploymentConfig}
use maxops.Hub.Stage.{Stage, stage_of, required}
use maxops.Hub.Workflow.{
  DeployUntil, next_action, workflow_round, observe_change, after_refresh, advance,
}

asked-required :
    (change : ChangeRecord) (action : DeploymentAction)
    → next_action change ≡ some action
    → required action change.state ≡ true
unfolding next_action required
asked-required change action h = ground arith

stage_leads :
    (action : DeploymentAction) (current : ChangeState) (deployment : DeploymentConfig)
    → required action current ≡ true
    → (stage : Stage) × (stage_of action deployment ≡ some stage)
      × (may_become current stage.next ≡ true)
unfolding required stage_of ChangeState.can_transition_to ChangeState.eq
stage_leads build current deployment h = (_, refl, ground arith)
stage_leads activate current deployment h = (_, refl, ground arith)
stage_leads verify current deployment h = (_, refl, ground arith)
stage_leads rollback current deployment h = (_, refl, ground arith)
stage_leads prepare current deployment h = cc

-- The stage that the workflow asks for is one that may start from the state of the change, and the
-- table of transitions allows the state that it leads to.
pub next_action-required :
    (change : ChangeRecord) (action : DeploymentAction) (deployment : DeploymentConfig)
    → next_action change ≡ some action
    → (required action change.state ≡ true)
      × ((stage : Stage) × (stage_of action deployment ≡ some stage)
          × (may_become change.state stage.next ≡ true))
next_action-required change action deployment h =
    let allowed = asked-required change action h in
    (allowed, stage_leads action change.state deployment allowed)

module _ {O : Type 0} (fleet : Fleet O) (jobs_value : ChangeJobs → Value)
    (deadline_passed : World O → Bool) (principal : String) (change_id : ChangeId)
    (until : DeployUntil) (refresh : Program (World O) HubError ChangeRecord)
    (finish : JobState → Value → Program (World O) HubError (Unit {0}))
    (submit_a submit_b : ChangeRecord
      → DeploymentAction
      → Program (World O) HubError JobRecord) where
  stopping :
      (workflow : JobRecord) (expired : Bool) (change : ChangeRecord) (w : World O)
      → (workflow.cancel_requested || expired) ≡ true
      → advance fleet jobs_value deadline_passed principal change_id until refresh finish submit_a
          workflow expired change w
        ≡ advance fleet jobs_value deadline_passed principal change_id until refresh finish submit_b
            workflow expired change w
  unfolding advance
  stopping workflow expired change w stops = choice_true _ _ stops ∙ sym (choice_true _ _ stops)

  stopping_refresh :
      (workflow : JobRecord) (expired : Bool) (r : Result HubError ChangeRecord) (w : World O)
      → (workflow.cancel_requested || expired) ≡ true
      → after_refresh fleet jobs_value deadline_passed principal change_id until refresh finish
          submit_a workflow expired r w
        ≡ after_refresh fleet jobs_value deadline_passed principal change_id until refresh finish
            submit_b workflow expired r w
  unfolding after_refresh
  stopping_refresh workflow expired (ok change) w stops = stopping workflow expired change w stops
  stopping_refresh workflow expired (err e) w stops = refl

  -- A round of a workflow that is asked to stop, or whose deadline has passed, submits no stage: it
  -- does not depend on how stages are submitted.
  pub workflow_round-stops :
      (id : JobId) (w : World O) (workflow : JobRecord)
      → find_job w.db id ≡ some workflow
      → (workflow.cancel_requested || deadline_passed w) ≡ true
      → workflow_round fleet jobs_value deadline_passed principal change_id until refresh finish
          submit_a id w
        ≡ workflow_round fleet jobs_value deadline_passed principal change_id until refresh finish
            submit_b id w
  unfolding workflow_round observe_change
  workflow_round-stops id w workflow found stops =
      let round = λ (f : JobRecord → Program (World O) HubError Next).
        ap (λ x. continue_with x.0 x.1 f) (found_query fleet (λ _. true) id w found)
        ∙ continue_ok f w refl in
      round (
        observe_change fleet jobs_value deadline_passed principal change_id until refresh finish
          submit_a)
      ∙ ap (λ y. if JobState.is_terminal workflow.state then (w, ok stop) else y)
          (stopping_refresh workflow (deadline_passed w) (refresh w).1 (refresh w).0 stops)
      ∙ sym (
          round (
            observe_change fleet jobs_value deadline_passed principal change_id until refresh finish
              submit_b))
