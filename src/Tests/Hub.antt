-- ===== src/Tests/Hub.antt =====
-- Examples for the hub's steps of jobs.
use maxops.Prelude.{
  ℕ, ◌+◌, ◌≤◌, arith, ◌≡◌, refl, ap, true, false, ◌&&◌, none, some, Result, ok, str_eq, find?,
  update_where, count_where, codes, all_codes,
}
use maxops.Prelude.Programs
use maxops.Proto.Json.{null}
use maxops.Proto.Jobs.{JobRecord}
use maxops.Proto.JobState
use maxops.Proto.JobState.{
  JobState, queued, running, cancelled, outcome_unknown, is_terminal, can_transition_to,
  reconciling, failed, succeeded,
}
use maxops.Proto.ChangeState
use maxops.Proto.Changes.{activate, rollback}
use maxops.Proto.Names.{bounded, valid_host}
use maxops.Store.Db.{Db}
use maxops.Store.Errors.{transact, to_i64, next_revision, i64_max}
use maxops.Store.Canonical.{canonical_json, job_spec_hash}
use maxops.Store.History.{no_rows}
use maxops.Store.Jobs.{
  queued_job, find_job, get_job, transition_job, transition_tx, insert_event, insert_job,
  accept_job, accept_tx, validate_new_job,
}
use maxops.Store.Jobs.Evolution.{JobsEvolve-refl}
use maxops.Store.Jobs.Accepting.{accept_job-idempotent}
use maxops.Hub.Errors.{HubError}
use maxops.Hub.Projection.{
  call_store, step_job, needs_reconciling, enter_reconciling, take_state, is_same_job,
  project_target_job,
}
use maxops.Hub.Following.{projected, project_target_job-follows}
use maxops.Hub.Refresh.{reported_state, state_without_report, expected_action}
use maxops.Hub.Reports.{main-reported_state, state_without_report-allowed}
use maxops.Hub.Finish.{finish}
use maxops.Hub.Finishing.{quiet, IsSettled, finish-IsSettled}
use maxops.Hub.Ending.{finish-ends}
use maxops.Hub.World.{World, Fleet, on_db, query}
use maxops.Hub.Dispatch.{dispatch, dispatch_job, drop_job, stop}
use maxops.Hub.Sending.{IsDropped, dispatch-denied}
use maxops.Tests.Jobs.{new_job, no_hash, one_job, one_job_found}
use maxops.Tests.Links.{change, owned_db, workflow}
use maxops.Tests.Runner.{host, spec, at_baseline, rolled_back_report, main_rolls_back}

activation_expected : expected_action ChangeState.activating ≡ some activate
unfolding expected_action
activation_expected = refl

rollback_expected : expected_action ChangeState.recovering ≡ some rollback
unfolding expected_action
rollback_expected = refl

main-reported_state_example :
    ChangeState.can_transition_to ChangeState.activating (
      reported_state rolled_back_report "builder"
        (record change { state = ChangeState.activating }))
    ≡ true
main-reported_state_example =
    main-reported_state host spec (at_baseline false) rolled_back_report 24 "builder"
      (record change { state = ChangeState.activating }) (ap (λ x. x.1) main_rolls_back)
      activation_expected

state_without_report-allowed_example :
    (ChangeState.can_transition_to ChangeState.recovering
        (state_without_report failed ChangeState.recovering)
      ≡ true)
    × (ChangeState.is_terminal (state_without_report failed ChangeState.recovering) ≡ true)
state_without_report-allowed_example =
    state_without_report-allowed failed ChangeState.recovering rollback rollback_expected

-- The executor does not know how the workflow's job ended.
abbrev unknown : JobRecord
unknown = record workflow { handle = record workflow.handle { state = outcome_unknown } }

abbrev settled : Db × Result HubError JobRecord
settled = project_target_job 5 6 workflow unknown owned_db

abbrev followed : JobRecord
followed = record unknown { handle = record unknown.handle { revision = 3 }; updated_at = 6 }

workflow_held : find_job owned_db "j1" ≡ some workflow
unfolding find_job find? str_eq
workflow_held = refl

follows : settled.1 ≡ ok followed
unfolding project_target_job is_same_job Programs.continue_with Programs.if◌then◌else◌
    enter_reconciling needs_reconciling take_state step_job call_store transition_job transition_tx
    transact find_job find? update_where count_where str_eq to_i64 next_revision insert_event
    get_job JobState.can_transition_to JobState.is_terminal JobState.eq canonical_json
follows = refl

project_target_job-follows_example :
    (r : JobRecord) × (r.state ≡ projected running outcome_unknown)
    × (find_job settled.0 "j1" ≡ some r)
project_target_job-follows_example =
    let (state, held) =
      project_target_job-follows 5 6 workflow unknown owned_db followed workflow_held follows in
    (followed, state, held)

fits : 1 + 2 ≤ i64_max
fits = omega arith

cancelled_ends : is_terminal cancelled ≡ true
unfolding is_terminal
cancelled_ends = refl

queued_lives : is_terminal queued ≡ false
unfolding is_terminal
queued_lives = refl

cancelled_is_no_success : (JobState.eq queued queued && JobState.eq cancelled succeeded) ≡ false
unfolding JobState.eq
cancelled_is_no_success = refl

finish-ends_example : (finish 5 "j1" cancelled null quiet 2 one_job).1 ≡ some (ok tt)
unfolding find?
finish-ends_example =
    finish-ends 5 "j1" cancelled null cancelled_ends 0 (queued_job 1 "h" "j1" new_job) one_job
      (refl, tt) one_job_found queued_lives fits cancelled_is_no_success

finish-IsSettled_example :
    IsSettled 5 "j1" cancelled null (finish 5 "j1" cancelled null quiet 2 one_job).0
unfolding find?
finish-IsSettled_example = finish-IsSettled 5 "j1" cancelled null quiet 2 one_job cancelled_ends (
    finish-ends 5 "j1" cancelled null cancelled_ends 0 (queued_job 1 "h" "j1" new_job) one_job
      (refl, tt) one_job_found queued_lives fits cancelled_is_no_success)

-- The executors do not answer, and count the requests.
abbrev pub silent : Fleet ℕ
silent = record {
  agent_request = λ host request w. (record w { outside = 1 }, none);
  sleep = λ n w. w;
  now = λ w. 7;
}

abbrev pub world : Db → World ℕ
world db = record { db = db; outside = 0 }

dropped : (dispatch silent (λ job. false) "j1" (world one_job)).1 ≡ ok stop
unfolding dispatch dispatch_job drop_job query on_db Programs.continue_with Programs.if◌then◌else◌
    step_job call_store transition_job transition_tx transact find_job find? update_where
    count_where str_eq to_i64 next_revision insert_event get_job JobState.can_transition_to
    JobState.is_terminal JobState.eq canonical_json
dropped = refl

dispatch-denied_example :
    IsDropped silent
      (λ job. false)
      (world one_job)
      (queued_job 1 "h" "j1" new_job)
      (dispatch silent (λ job. false) "j1" (world one_job))
unfolding find?
dispatch-denied_example =
    dispatch-denied silent (λ job. false) "j1" (world one_job) (queued_job 1 "h" "j1" new_job)
      (refl, tt) one_job_found refl

accepted :
    (accept_job no_hash 1 "j1" new_job no_rows).1
    ≡ ok (record { job = queued_job 1 "h" "j1" new_job; created = true })
unfolding accept_job accept_tx transact validate_new_job valid_host bounded codes all_codes find_job
    find? str_eq insert_event insert_job get_job canonical_json job_spec_hash
accepted = refl

accept_job-idempotent_example :
    (row : JobRecord) × (find_job (accept_job no_hash 1 "j1" new_job no_rows).0 "j1" ≡ some row)
    × (accept_job no_hash 9 "j1" new_job (accept_job no_hash 1 "j1" new_job no_rows).0 ≡ (
      (accept_job no_hash 1 "j1" new_job no_rows).0,
      ok (record { job = row; created = false }),
    ))
accept_job-idempotent_example =
    accept_job-idempotent no_hash "j1" new_job 1 9 no_rows _ _ accepted (JobsEvolve-refl _)
