-- ===== src/Hub/Dispatch.antt =====
-- `dispatch`, `monitor_target` and `submit_request` of crates/maxops-hub/src/lib.rs: how a queued
-- job reaches its executor. `monitor_target` loops until it stops; a round is `monitor_round`.
use maxops.Prelude.{Bool, true, false, not, ◌&&◌, ◌||◌, String, Option, none, some, ok, err, codes}
use maxops.Prelude.Programs.{Program, ◌>>=◌, lift, pure, if◌then◌else◌}
use maxops.Proto.Ids.{JobId}
use maxops.Proto.Json.{Value, object, member, end, string, bool}
use maxops.Proto.Jobs.{
  NewJob, JobRecord, ExecutorRequest, ExecutorResponse, submit_request, status_request,
  job_response, other_response,
}
use maxops.Proto.JobState
use maxops.Proto.JobState.{
  JobState, queued, dispatching, running, reconciling, cancelled, outcome_unknown, is_terminal,
  can_transition_to,
}
use maxops.Runner.Paths.{starts_with}
use maxops.Store.Jobs.{get_job}
use maxops.Hub.Errors.{HubError, report}
use maxops.Hub.Projection.{step_job, project_target_job}
use maxops.Hub.World.{World, Fleet, on_db, query}

-- The new job that a request to submit the job carries.
unfoldable pub sent_job : JobRecord → NewJob
sent_job job = record {
  principal = job.principal;
  host = job.host;
  operation = job.operation;
  spec_version = job.spec_version;
  spec = job.spec;
  policy_version = job.policy_version;
  deadline = job.deadline;
}

unfoldable pub request_of : JobRecord → ExecutorRequest
unfolding sent_job
request_of job = submit_request job.job_id (sent_job job)

-- The job is over, and a later look at the executor would not change that.
unfoldable pub is_over : JobRecord → Bool
unfolding starts_with codes
is_over job =
    is_terminal job.state
    && (not (JobState.eq job.state outcome_unknown)
        || starts_with (codes "units.") (codes job.operation))

abbrev pub one_member : String → String → Value
one_member name text = object (member name (string text) end)

-- Whether a loop or a call goes on to watch the job at its executor.
pub data Next : Type 0 where
  stop watch : Next

module _ {O : Type 0} (fleet : Fleet O) (authorized : JobRecord → Bool) where
  open fleet use {agent_request, sleep}

  unfoldable pub take_target : JobRecord → JobRecord → Program (World O) HubError JobRecord
  take_target current target = on_db fleet (λ at. project_target_job at at current target)

  -- A job that may not be sent is cancelled when it is still queued.
  unfoldable pub drop_job : JobRecord → Program (World O) HubError Next
  drop_job job w =
      if JobState.eq job.state queued
      then (on_db fleet (λ at.
              step_job at job cancelled
                (one_member "reason" "authorization no longer permits dispatch")
                (some
                  (object (member "started" (bool false) (member "cancelled" (bool true) end)))))
            >>= λ _. pure stop)
          w
      else (w, ok stop)

  unfoldable pub start_dispatching : JobRecord → Program (World O) HubError JobRecord
  start_dispatching job w =
      if JobState.eq job.state queued
      then on_db fleet (λ at. step_job at job dispatching (one_member "target" job.host) none) w
      else (w, ok job)

  abbrev next_of : JobRecord → Next
  next_of job = elim (is_terminal job.state) [ true ↦ stop | false ↦ watch ]

  -- The request failed: the job is left for reconciliation, and an error of the transition is
  -- dropped.
  unfoldable pub lose_acknowledgement : JobRecord → Program (World O) HubError JobRecord
  lose_acknowledgement job w =
      if not (JobState.eq job.state reconciling) && can_transition_to job.state reconciling
      then (let r =
            on_db fleet
              (λ at.
                step_job at job reconciling
                  (one_member "reason" "dispatch acknowledgement unavailable") none)
              w in
          (r.0, elim r.1 [ ok updated ↦ ok updated | err e ↦ ok job ]))
      else (w, ok job)

  unfoldable pub take_answer :
      JobRecord → Option ExecutorResponse → Program (World O) HubError JobRecord
  take_answer job (some (job_response target)) = take_target job target
  take_answer job (some other_response) = lift (err (report "invalid executor response"))
  take_answer job none = lose_acknowledgement job

  unfoldable pub send_job : JobRecord → Program (World O) HubError Next
  send_job job w =
      let r = agent_request job.host (request_of job) w in
      (take_answer job r.1 >>= λ updated. pure (next_of updated)) r.0

  unfoldable pub dispatch_job : JobRecord → Program (World O) HubError Next
  dispatch_job job w =
      if not (authorized job)
      then drop_job job w
      else if JobState.eq job.state running
      then (w, ok watch)
      else (start_dispatching job >>= send_job) w

  -- `dispatch` up to its calls of `monitor_target`.
  unfoldable pub dispatch : JobId → Program (World O) HubError Next
  dispatch id = query fleet (λ db. get_job db id) >>= dispatch_job

  abbrev over_or_watch : JobRecord → Next
  over_or_watch job = elim (is_over job) [ true ↦ stop | false ↦ watch ]

  watch_answer : JobRecord → Option ExecutorResponse → Program (World O) HubError Next
  watch_answer current (some (job_response target)) =
      take_target current target >>= λ updated. pure (over_or_watch updated)
  watch_answer current (some other_response) = lift (err (report "invalid executor response"))
  watch_answer current none = pure watch

  -- The status request failed: a job that may not have arrived is sent again.
  unfoldable pub send_again : JobRecord → Program (World O) HubError Next
  unfolding watch_answer
  send_again current w =
      if (JobState.eq current.state dispatching || JobState.eq current.state reconciling)
        && authorized current
      then (let r = agent_request current.host (request_of current) w in
          watch_answer current r.1 r.0)
      else (w, ok watch)

  look_answer : JobRecord → Option ExecutorResponse → Program (World O) HubError Next
  unfolding watch_answer
  look_answer current none = send_again current
  look_answer current answer = watch_answer current answer

  abbrev pause_after : Next → Program (World O) HubError Next
  pause_after stop w = (w, ok stop)
  pause_after watch w = (sleep 2 w, ok watch)

  unfoldable pub watch_job : JobRecord → Program (World O) HubError Next
  unfolding look_answer
  watch_job current w =
      if is_over current
      then (w, ok stop)
      else (let r = agent_request current.host (status_request current.job_id) w in
          (look_answer current r.1 >>= pause_after) r.0)

  unfoldable pub monitor_round : JobId → Program (World O) HubError Next
  monitor_round id = query fleet (λ db. get_job db id) >>= watch_job
