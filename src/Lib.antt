-- ===== src/Lib.antt =====
-- maxops is a control plane for a fleet of NixOS hosts. A hub accepts jobs from clients, keeps them in
-- a durable store, and dispatches them to executors on the hosts, which keep a store of the same kind.
-- This library models the protocol's state machines, the durable store, the runner of deployments on
-- a host, and the parts of the hub that move jobs and changes.
--
-- The parts:
--
--   Prelude   shared notation, tables as lists of rows with the statements of SQL, and their laws.
--   Proto     crates/maxops-proto/src: `JobState`, `ChangeState` and the other enumerations with the
--             texts that they are written as (jobs.rs, changes.rs, workspaces.rs, events.rs, observations.rs),
--             identifiers, the tests on names, and the records of jobs, changes, workspaces, events.
--   Store     crates/maxops-store/src/lib.rs over the tables of crates/maxops-store/migrations.
--     Db, Errors   the tables as one record, the errors, transactions.
--     Canonical    `canonical_json`, `job_spec_hash`.
--     Jobs         `accept_job`, `transition_job`, `request_cancel` and the reads of jobs.
--     Changes      `create_change`, `transition_change`, and the link of a job to a change.
--     Submit       `submit_linked_job`, `submit_job_with_id`.
--     Resources    `try_acquire_resource`, `release_resource`: locks on targets.
--     Workspaces   `create_workspace`, `record_workspace`, `transition_workspace` and the reads.
--     Events       `ingest_alert`, `append_fleet_event`, `prune_events_through`, `list_events`.
--     Listing      `list_jobs`, `nonterminal_jobs`, `job_events_page`, and in Listing/Visible
--                  `list_visible_jobs`, `list_visible_changes` and `list_changes`.
--     Observations `record_observation`, `latest_observation`.
--     EventOrder   the writes of events in one sequence, and reading on after old ones are deleted.
--     Deliveries   subscriptions, their cursors and the deliveries of events.
--     Remediation  `begin_remediation`, `finish_remediation`.
--     Clock        what the store calls of the time library, as parameters.
--     History      any sequence of the operations on jobs.
--   Runner    crates/maxops-executor/src/bin/maxops-deploy-runner.rs, which executes one stage of a
--             deployment on its host and ends with a report and an exit code.
--     Paths, Validation, Commands, Observe   its tests and its calls of programs.
--     Machine      the host as a parameter: files, programs, sleeping, the clock.
--     Stages, Actions   activation, the loop of verification, recovery, the stages, `main`.
--     Endings, Correspondence, Verification, Evidence, Truth, Guarantees, Ownership, Confinement,
--     StageCommands     the theorems.
--   Hub       crates/maxops-hub/src/lib.rs and deployment_workflow.rs.
--     World        the tables with everything outside; requests to executors and sleeping are
--                  parameters that may change both, since other tasks run meanwhile.
--     Projection, Refresh, Dispatch, Stage, Access   `project_target_job`, `refresh_change`,
--                  `dispatch`, `monitor_target`, `submit_change_stage_owned`, the authorization.
--     Workflow, Finish   a round of `run` and the loop `finish` of the deployment workflow.
--     Following, Reports, Sending, Confirming, Stopping, Finishing, Ending   the theorems.
--   Tests     the code at concrete inputs, and an instance of each theorem.
--
-- How the code corresponds to the model. A method of `Store` is a function from the tables to the new
-- tables and its result. The writer lock makes the methods that write run one after the other, each
-- in one transaction, so a sequence of calls is a list. `transact` is a transaction: an early return
-- rolls it back, which is the documented behaviour of the database. A query is a search of a list of
-- rows in the order of insertion; primary keys and references of the schema that an operation can
-- violate are tests that end in `constraint`. A column holds the value that is written through
-- `as_str`, `to_string` or JSON and read back through `from_str`, `parse` or JSON. Times are numbers of nanoseconds, read from the clock by the caller of
-- the model and passed in; so are the fresh identifiers. The hash of a specification is a parameter,
-- `fingerprint`, from the canonical value to a text, since BLAKE3 and the JSON printer are other
-- packages. The time library's `checked_add` and `as_second` and the order of the texts of two times are
-- parameters too. `list_events` makes its queries outside a transaction, so that the model takes the
-- tables at each of them. Integers are natural numbers with the code's own bounds: `to_i64` and the
-- checked addition of revisions fail where the code fails. The revision of a lock wraps around as an `i64`
-- does in a release build. Where SQL computes `revision + 1`, the model has no counterpart of the real number that
-- follows the greatest integer. Rows that `ORDER BY` does not tell apart come in the order of
-- `ties`, a parameter.
--
-- A stage of the runner is a `Program`: a function from the state of the host to the next state and
-- the reply or the error. Starting a program and sleeping change the state in any way; a read does
-- not, and nothing changes between two reads. The hub's handlers are programs on a `World`. What they
-- do not do themselves, such as JSON, the executors' answers and the fresh identifiers, is a parameter. In a
-- round of the workflow, `refresh_change` and `finish` are parameters too: they stand in Refresh and
-- Finish. The loop of `finish` counts its rounds by fuel, and Ending says how many are enough; in it,
-- other tasks may write before each read and each write. `monitor_target` and `run` watch until a
-- condition holds outside, so that one round of each is modelled. The loop of verification is a
-- recursion on the attempts that are left; all other recursions are on lists.
--
-- Not modelled: the executor and the agent, which start programs and read the system, input and output (HTTP, sockets, systemd, the file system), command line tools, the
-- metrics text, and the notification of waiters, which carries no data.
pub mod Hub
pub mod Prelude
pub mod Proto
pub mod Runner
pub mod Store
mod Tests
