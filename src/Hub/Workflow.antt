-- ===== src/Hub/Workflow.antt =====
-- The deployment workflow of crates/maxops-hub/src/deployment_workflow.rs: `is_local`,
-- `active_child`, and a round of the second loop of `run`, which observes the change and asks for its next
-- stage. `finish` stands in Hub/Finish; here it is the parameter `finish`, as `submit_stage` is
-- `submit_change_stage_owned`.
use maxops.Prelude.{
  Bool, true, false, not, ◌&&◌, ◌||◌, String, Option, none, some, Result, ok, err, str_eq, is_some,
}
use maxops.Prelude.Programs.{Program, ◌>>=◌, pure, if◌then◌else◌}
use maxops.Proto.Ids.{JobId, ChangeId}
use maxops.Proto.Json.{Value, object, member, end, string, bool, unsigned, null}
use maxops.Proto.Jobs.{
  JobRecord, ExecutorResponse, status_request, cancel_request, job_response, other_response,
}
use maxops.Proto.JobState
use maxops.Proto.JobState.{JobState}
use maxops.Proto.ChangeState
use maxops.Proto.ChangeState.{ChangeState}
use maxops.Proto.Changes.{ChangeRecord, ChangeJobs, DeploymentAction, build, activate, verify}
use maxops.Store.Jobs.{get_job, get_owned_job}
use maxops.Hub.Errors.{HubError, report, may_retry}
use maxops.Hub.Projection.{project_target_job}
use maxops.Hub.Dispatch.{Next, stop, watch}
use maxops.Hub.World.{World, Fleet, on_db, query}

unfoldable pub is_local : String → Bool
is_local operation =
    str_eq operation "deploy.run"
    || str_eq operation "diagnostics.collect"
    || str_eq operation "remediations.begin"

pub data DeployUntil : Type 0 where
  built verified : DeployUntil

abbrev pub is_built : DeployUntil → Bool
is_built built = true
is_built verified = false

abbrev until_text : DeployUntil → String
until_text built = "built"
until_text verified = "verified"

unfoldable pub active_child : ChangeRecord → Option JobId
active_child change = elim change.state [
  | ChangeState.building ↦ change.jobs.build
  | ChangeState.publishing ↦ change.jobs.build
  | ChangeState.activating ↦ change.jobs.activate
  | ChangeState.verifying ↦ change.jobs.verify
  | ChangeState.recovering ↦ change.jobs.rollback
  | _ ↦ none
]

-- The stage that the workflow asks for.
unfoldable pub next_action : ChangeRecord → Option DeploymentAction
next_action change = elim change.state [
  | ChangeState.prepared ↦ some build
  | ChangeState.ready ↦ some activate
  | ChangeState.verifying ↦ elim (is_some change.jobs.verify) [ false ↦ some verify | true ↦ none ]
  | _ ↦ none
]

-- The workflow has what it was asked for.
unfoldable pub is_attained : DeployUntil → ChangeRecord → Bool
is_attained until change =
    is_built until && ChangeState.eq change.state ChangeState.ready
    || ChangeState.eq change.state ChangeState.succeeded

abbrev pub state_value : ChangeRecord → Value
state_value change = string (ChangeState.as_str change.state)

abbrev pub text_or_null : Option String → Value
text_or_null none = null
text_or_null (some text) = string text

abbrev two : String → Value → String → Value → Value
two a x b y = object (member a x (member b y end))

-- `jobs_value` writes the jobs of a change as JSON, and `deadline_passed` compares the worker's
-- timer with the monotonic clock.
module _ {O : Type 0} (fleet : Fleet O) (jobs_value : ChangeJobs → Value)
    (deadline_passed : World O → Bool) (principal : String) (change_id : ChangeId)
    (until : DeployUntil) (refresh : Program (World O) HubError ChangeRecord)
    (finish : JobState → Value → Program (World O) HubError (Unit {0})) where
  open fleet use {agent_request, sleep}

  unfoldable pub finish_as : JobState → Value → Program (World O) HubError Next
  finish_as final result = finish final result >>= λ _. pure stop

  unfoldable pub rest_a_second : Program (World O) HubError Next
  rest_a_second w = (sleep 1 w, ok watch)

  -- A cancellation keeps what was done: `reversed` is false.
  unfoldable pub stopped : Bool → ChangeRecord → Program (World O) HubError Next
  stopped expired change =
      finish_as (elim expired [ true ↦ JobState.timed_out | false ↦ JobState.cancelled ])
        (object (
          member "change_id" (string change_id)
            (member "change_state" (state_value change) (member "reversed" (bool false) end))))

  unfoldable pub project_child : JobRecord → JobRecord → Program (World O) HubError (Unit {0})
  project_child child target =
      on_db fleet (λ at. project_target_job at at child target) >>= λ _. pure tt

  unfoldable pub project_reply :
      JobRecord → Option ExecutorResponse → Program (World O) HubError (Unit {0})
  project_reply child (some (job_response target)) = project_child child target
  project_reply child (some other_response) = pure tt
  project_reply child none = pure tt

  -- The executor is asked to cancel a child that still runs there.
  unfoldable pub cancel_child :
      JobRecord → Option ExecutorResponse → Program (World O) HubError (Unit {0})
  cancel_child child (some (job_response target)) w =
      if not (JobState.is_terminal target.state)
      then (let r =
            agent_request child.host
              (cancel_request child.job_id target.revision "deployment workflow stopped") w in
          project_reply child r.1 r.0)
      else project_child child target w
  cancel_child child (some other_response) w = (w, ok tt)
  cancel_child child none w = (w, ok tt)

  -- After the attempt to cancel, from the child as it is now.
  unfoldable pub judge_child : Bool → ChangeRecord → JobRecord → Program (World O) HubError Next
  judge_child expired change child w =
      if not (JobState.is_terminal child.state)
      then (if expired
          then finish_as JobState.outcome_unknown
              (object (
                member "change_id" (string change_id) (
                  member "child_job_id" (string child.job_id)
                    (member "error" (string "child_cancellation_unconfirmed") end))))
              w
          else rest_a_second w)
      else if JobState.eq child.state JobState.outcome_unknown
      then finish_as JobState.outcome_unknown
          (two "change_id" (string change_id) "child_job_id" (string child.job_id)) w
      else stopped expired change w

  unfoldable pub stop_child : Bool → ChangeRecord → JobRecord → Program (World O) HubError Next
  stop_child expired change child w =
      if not (JobState.is_terminal child.state)
      then (let r = agent_request child.host (status_request child.job_id) w in
          (cancel_child child r.1 >>= λ _.
          query fleet (λ db. get_job db child.job_id) >>= judge_child expired change)
            r.0)
      else stopped expired change w

  unfoldable pub stop_workflow : Bool → ChangeRecord → Program (World O) HubError Next
  stop_workflow expired change = elim (active_child change) [
    | none ↦ stopped expired change
    | some id ↦ query fleet (λ db. get_owned_job db principal id) >>= stop_child expired change
  ]

  abbrev attained_value : ChangeRecord → Value
  attained_value change = object (
      member "change_id" (string change_id) (
        member "change_revision" (unsigned change.revision) (
          member "change_state" (state_value change) (
            member "until" (string (until_text until))
              (member "jobs" (jobs_value change.jobs) end)))))

  abbrev ended_value : ChangeRecord → Value
  ended_value change = object (
      member "change_id" (string change_id) (
        member "change_state" (state_value change) (
          member "recovery_state" (text_or_null change.recovery_state)
            (member "jobs" (jobs_value change.jobs) end))))

  abbrev ended_state : ChangeState → JobState
  ended_state ChangeState.outcome_unknown = JobState.outcome_unknown
  ended_state _ = JobState.failed

  module _
      (submit_stage : ChangeRecord → DeploymentAction → Program (World O) HubError JobRecord) where
    -- A conflict or an error of a server is left to the next round.
    unfoldable pub after_submit : Result HubError JobRecord → Program (World O) HubError Next
    after_submit (ok handle) w = rest_a_second w
    after_submit (err e) w =
        if may_retry e then rest_a_second w else (w, err (report "workflow stage rejected"))

    unfoldable pub ask_stage :
        ChangeRecord → Option DeploymentAction → Program (World O) HubError Next
    ask_stage change none w = rest_a_second w
    ask_stage change (some action) w = let r = submit_stage change action w in after_submit r.1 r.0

    -- From the change as it was observed.
    unfoldable pub advance : JobRecord → Bool → ChangeRecord → Program (World O) HubError Next
    advance workflow expired change w =
        if workflow.cancel_requested || expired
        then stop_workflow expired change w
        else if is_attained until change
        then finish_as JobState.succeeded (attained_value change) w
        else if ChangeState.is_terminal change.state
        then finish_as (ended_state change.state) (ended_value change) w
        else ask_stage change (next_action change) w

    unfoldable pub after_refresh :
        JobRecord → Bool → Result HubError ChangeRecord → Program (World O) HubError Next
    after_refresh workflow expired (ok change) w = advance workflow expired change w
    after_refresh workflow expired (err e) w =
        if not expired && may_retry e
        then rest_a_second w
        else (w, err (report "cannot observe owned change"))

    unfoldable pub observe_change : JobRecord → Program (World O) HubError Next
    observe_change workflow w =
        if JobState.is_terminal workflow.state
        then (w, ok stop)
        else (let r = refresh w in after_refresh workflow (deadline_passed w) r.1 r.0)

    unfoldable pub workflow_round : JobId → Program (World O) HubError Next
    workflow_round id = query fleet (λ db. get_job db id) >>= observe_change
