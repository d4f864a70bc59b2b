-- ===== src/Hub/Reports.antt =====
-- The reports of crates/maxops-executor/src/bin/maxops-deploy-runner.rs against the states that
-- `refresh_change` of crates/maxops-hub/src/lib.rs moves a change to.
use maxops.Prelude.{ℕ, true, String, some, ok, ◌≡◌, refl, arith}
use maxops.Proto.JobState.{JobState}
use maxops.Proto.ChangeState
use maxops.Proto.ChangeState.{
  ChangeState, checking, building, publishing, activating, verifying, recovering, can_transition_to,
}
use maxops.Proto.Changes.{ChangeRecord, DeploymentAction}
use maxops.Proto.Deployments.{DeploymentRunnerSpec, DeploymentReport, DeploymentReportStatus}
use maxops.Runner.Machine.{Machine}
use maxops.Runner.Actions.{main}
use maxops.Runner.Endings.{may_end, may_recover}
use maxops.Runner.Correspondence.{main-EndsWell}
use maxops.Hub.Refresh.{expected_action, reported_state, state_without_report}

reported_by_status :
    (report : DeploymentReport) (host : String) (change : ChangeRecord) (current : ChangeState)
    (action : DeploymentAction) (status : DeploymentReportStatus) (code : ℕ)
    → report.status ≡ status
    → change.state ≡ current
    → expected_action current ≡ some action
    → may_end action status code ≡ true
    → can_transition_to current (reported_state report host change) ≡ true
unfolding reported_state expected_action may_end may_recover can_transition_to
reported_by_status report host change current action status code r c e m = ground arith

-- Every report that the runner replies with, for the action that the state of a change expects,
-- leads the change to a state that the table of transitions allows.
pub main-reported_state :
    {S : Type 0} (machine : Machine S) (spec : DeploymentRunnerSpec) (s : S)
    (report : DeploymentReport) (code : ℕ) (host : String) (change : ChangeRecord)
    → (main machine spec s).1 ≡ ok (report, code)
    → expected_action change.state ≡ some spec.job.action
    → can_transition_to change.state (reported_state report host change) ≡ true
main-reported_state machine spec s report code host change h e =
    reported_by_status report host change change.state spec.job.action report.status code refl refl
      e (main-EndsWell machine spec s report code h).1

-- A change whose stage ended without a report goes to a terminal state that the table allows.
pub state_without_report-allowed :
    (ended : JobState) (current : ChangeState) (action : DeploymentAction)
    → expected_action current ≡ some action
    → (can_transition_to current (state_without_report ended current) ≡ true)
      × (ChangeState.is_terminal (state_without_report ended current) ≡ true)
unfolding expected_action state_without_report can_transition_to ChangeState.is_terminal
state_without_report-allowed ended current action e = ground arith
