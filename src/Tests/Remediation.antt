-- ===== src/Tests/Remediation.antt =====
-- Examples for the store's remediations.
use maxops.Prelude.{
  ◌≡◌, refl, none, List, [], ◌∷◌, ok, arith, str_eq, find?, count_where, select_where,
}
use maxops.Proto.EventKind
use maxops.Proto.Json.{object, end}
use maxops.Proto.RemediationState
use maxops.Store.Db.{Db}
use maxops.Store.Errors.{transact}
use maxops.Store.Events.{NewFleetEvent, with_event, find_event, insert_fleet_event}
use maxops.Store.Jobs.{find_job}
use maxops.Store.Remediation.{
  BeginRemediation, new_remediation, RemediationCompletion, begin_remediation, begin_tx,
  record_attempt, may_begin, get_remediation, last_started, cooled_down,
}
use maxops.Store.Remediation.Exclusive.{
  RemediationOperation, run_remediations, HasOneActive, run_remediations-HasOneActive,
}
use maxops.Store.Remediation.Budget.{IsWithin, run_remediations-IsWithin}
use maxops.Store.Remediation.Retry.{begin_remediation-retries}
use maxops.Tests.Jobs.{one_job}
use maxops.Tests.Deliveries.{a_clock}

abbrev alert : NewFleetEvent
alert = record {
  source = "alertmanager";
  fingerprint = "f1";
  episode_id = "e1";
  kind = EventKind.alert_firing;
  host = "host-a";
  occurred_at = 1;
  related_job_id = none;
  related_change_id = none;
  payload = object end;
}

abbrev alerted : Db
alerted = with_event "v1" alert 2 one_job

abbrev attempt_one : BeginRemediation
attempt_one = record {
  remediation_id = "r1";
  lifecycle_event = "v2";
  now = 5;
  event_id = "v1";
  host = "host-a";
  principal = "automation-a";
  related_job_id = "j1";
  max_attempts = 2;
  cooldown_seconds = 10;
}

abbrev done : RemediationCompletion
done = record {
  expected_revision = 1;
  outcome = RemediationState.succeeded;
  related_job_id = none;
  related_change_id = none;
  summary = "restarted";
}

abbrev both : List RemediationOperation
both =
    RemediationOperation.begin attempt_one
    ∷ RemediationOperation.finish "v3" 9 "r1" "automation-a" done
    ∷ []

none_active : HasOneActive alerted
unfolding count_where
none_active = record { on_host = λ host. omega arith; in_episode = λ id. omega arith }

run_remediations-HasOneActive_example : HasOneActive (run_remediations a_clock both alerted)
run_remediations-HasOneActive_example =
    run_remediations-HasOneActive a_clock both alerted none_active

no_attempts : IsWithin 2 alerted
unfolding count_where
no_attempts = λ id. omega arith

run_remediations-IsWithin_example : IsWithin 2 (run_remediations a_clock both alerted)
run_remediations-IsWithin_example =
    run_remediations-IsWithin 2 a_clock both alerted refl no_attempts

abbrev retried : BeginRemediation
retried = record attempt_one { remediation_id = "r2"; lifecycle_event = "v4"; now = 6 }

abbrev begun : Db
begun = (begin_remediation a_clock attempt_one alerted).0

replied :
    (begin_remediation a_clock attempt_one alerted).1 ≡ ok (new_remediation attempt_one "e1" 1)
unfolding begin_remediation begin_tx record_attempt may_begin get_remediation last_started
    cooled_down transact find_event insert_fleet_event find_job find? count_where select_where
    str_eq
replied = refl

begin_remediation-retries_example :
    begin_remediation a_clock retried begun ≡ (begun, ok (new_remediation attempt_one "e1" 1))
begin_remediation-retries_example =
    begin_remediation-retries a_clock attempt_one retried alerted replied refl refl refl
