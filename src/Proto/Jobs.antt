-- ===== src/Proto/Jobs.antt =====
-- The records of jobs (crates/maxops-proto/src/jobs.rs, events.rs). A time is a number of
-- nanoseconds since the epoch.
use maxops.Prelude.{ℕ, String, Bool, Option, List}
use maxops.Proto.Ids.{JobId}
use maxops.Proto.Json.{Value}
use maxops.Proto.JobState.{JobState}
use maxops.Proto.JobEventKind.{JobEventKind}

abbrev pub Timestamp : Type 0
Timestamp = ℕ

pub record NewJob : Type 0 where
  pub principal : String
  pub host : String
  pub operation : String
  pub spec_version : ℕ
  pub spec : Value
  pub policy_version : String
  pub deadline : Option Timestamp

pub record JobHandle : Type 0 where
  pub job_id : JobId
  pub state : JobState
  pub revision : ℕ
  pub operation : String
  pub host : String

pub record JobRecord : Type 0 where
  pub handle : JobHandle
  pub open handle use *
  pub principal : String
  pub spec_version : ℕ
  pub spec : Value
  pub spec_hash : String
  pub policy_version : String
  pub created_at : Timestamp
  pub updated_at : Timestamp
  pub deadline : Option Timestamp
  pub cancel_requested : Bool
  pub result : Option Value

pub record JobEvent : Type 0 where
  pub sequence : ℕ
  pub job_id : JobId
  pub kind : JobEventKind
  pub state : JobState
  pub occurred_at : Timestamp
  pub payload : Value

pub record JobsListParams : Type 0 where
  pub cursor : Option JobId
  pub host : Option String
  pub states : List JobState
  pub limit : ℕ

-- Of the requests to an executor and its responses, those that the deployments and the dispatch of
-- jobs use; `other_response` stands for the rest.
pub data ExecutorRequest : Type 0 where
  submit_request : JobId → NewJob → ExecutorRequest
  status_request : JobId → ExecutorRequest
  cancel_request : JobId → ℕ → String → ExecutorRequest

pub data ExecutorResponse : Type 0 where
  job_response : JobRecord → ExecutorResponse
  other_response : ExecutorResponse
