-- ===== src/Hub/Confirming.antt =====
-- Which stages `submit_change_stage_owned` of crates/maxops-hub/src/lib.rs lets through.
use maxops.Prelude.{
  Bool, true, false, ltb, String, Option, ap, ◌∙◌, Result, ok, ok_or, err, some, str_eq, ◌&&◌, ◌⊎◌,
  inl, inr, ◌≡◌, refl, arith, ensure, err-ok, eq_of_str_eq, of_not-false,
}
use maxops.Prelude.Programs.{Program, continue_with, continue_ind, continue_inv, choice_ind}
use maxops.Proto.Ids.{JobId}
use maxops.Proto.Json.{Value}
use maxops.Proto.Jobs.{Timestamp, JobRecord}
use maxops.Proto.ChangeState.{ChangeState}
use maxops.Store.Db.{Db}
use maxops.Store.Errors.{transact_inv}
use maxops.Store.Changes.{transition_change}
use maxops.Store.Changes.Stale.{transition_change_tx-ok}
use maxops.Hub.Following.{call_store-state}
use maxops.Hub.Refresh.{transition_change_state}
use maxops.Proto.Changes.{ChangePlan, ChangeRecord, activate}
use maxops.Proto.Deployments.{DeploymentJobSpec}
use maxops.Store.Clock.{Clock}
use maxops.Hub.Errors.{HubError}
use maxops.Hub.Access.{App, Principal, DeploymentConfig}
use maxops.Hub.World.{World, Fleet, on_db}
use maxops.Hub.Stage.{
  RuntimeStateResponse, StageRequest, runtime_matches_plan, required, make_stale, check_expiry,
  compare_baseline, check_baseline, submit_checked, Stage, stage_of, submit_job,
}

ensured : (b : Bool) (e : HubError) → ensure b e ≡ ok tt → b ≡ true
ensured true e h = refl
ensured false e h = absurd (err-ok h)

chosen : {A : Type 0} (o : Option A) (e : HubError) {a : A} → ok_or o e ≡ ok a → o ≡ some a
chosen o e h = ground (arith, h)

unchanged :
    (change : ChangeRecord) (commit : String) (runtime : RuntimeStateResponse)
    → (str_eq commit change.plan.source_remote_head && runtime_matches_plan runtime change.plan)
      ≡ true
    → (commit ≡ change.plan.source_remote_head) × (runtime_matches_plan runtime change.plan ≡ true)
unchanged change commit runtime h =
    ground (arith, h, eq_of_str_eq commit change.plan.source_remote_head)

-- A sequence whose first step failed has ended there; one whose first step went well goes on.
module _ {S E A B : Type 0} (Q : S × Result E B → Type 0) (m : S × Result E A)
    (f : A → Program S E B) where
  left_at : {e : E} → m.1 ≡ err e → Q (m.0, err e) → Q (continue_with m.0 m.1 f)
  unfolding continue_with
  left_at q h = rw q h

  passed : {s : S} {a : A} → m ≡ (s, ok a) → Q (f a s) → Q (continue_with m.0 m.1 f)
  unfolding continue_with
  passed same h = rw same h

-- Marking a change writes no job.
pub transition_change_state-jobs :
    (change : ChangeRecord) (next : ChangeState) (recovery : Option String) (at : Timestamp)
    (db : Db)
    → (transition_change_state change next recovery at db).0.jobs ≡ db.jobs
unfolding transition_change_state transition_change
transition_change_state-jobs change next recovery at db =
    ap (λ d. d.jobs) (call_store-state _)
    ∙ transact_inv (λ d. d.jobs ≡ db.jobs) db _ _ refl
        λ db' u q.
          let (row, found, same, may, written) = transition_change_tx-ok at _ _ _ db q in
          ap (λ d. d.jobs) written

module _ {O : Type 0} (fleet : Fleet O) (fingerprint : Value → String) (clock : Clock)
    (encode : DeploymentJobSpec → Value) (decode_spec : Value → Option DeploymentJobSpec)
    (fresh_id : World O → Option JobId → String → JobId)
    (repository_head : ChangePlan → Program (World O) HubError String)
    (runtime_state : DeploymentConfig → Program (World O) HubError RuntimeStateResponse) (app : App)
    (principal : Principal) (refresh : Program (World O) HubError ChangeRecord)
    (request : StageRequest) where
  open fleet use {now}

  -- The executors answered with the source and the runtime of the plan.
  unfoldable pub Confirmed : ChangeRecord → DeploymentConfig → World O → Type 0
  Confirmed change deployment w =
      (commit : String) × (runtime : RuntimeStateResponse) × ((repository_head change.plan w).1
        ≡ ok commit)
      × ((runtime_state deployment (repository_head change.plan w).0).1 ≡ ok runtime)
      × (commit ≡ change.plan.source_remote_head)
      × (runtime_matches_plan runtime change.plan ≡ true)

  -- What the world is after the executors have been asked.
  abbrev pub asked : ChangeRecord → DeploymentConfig → World O → World O
  asked change deployment w = (runtime_state deployment (repository_head change.plan w).0).0

  -- The tests have passed, and the reply and the world are those of submitting the job after them.
  unfoldable pub IsSubmitted :
      ChangeRecord → DeploymentConfig → World O → World O × Result HubError JobRecord → Type 0
  IsSubmitted change deployment w x =
      (required request.action change.state ≡ true)
      × (ltb (clock.as_second change.plan.expires_at) (clock.as_second (now w)) ≡ false)
      × Confirmed change deployment w
      × ((stage : Stage) × (deadline : Timestamp) × (stage_of request.action deployment
            ≡ some stage)
          × (clock.checked_add (now (asked change deployment w)) stage.timeout ≡ some deadline)
          × (x
              ≡ submit_job fleet fingerprint clock encode decode_spec fresh_id repository_head
                  runtime_state app principal refresh request change stage deadline
                  (asked change deployment w)))

  module _ (P : World O → Type 0)
      (head_keeps : (plan : ChangePlan) (v : World O) → P v → P (repository_head plan v).0)
      (state_keeps : (deployment : DeploymentConfig) (v : World O)
        → P v
        → P (runtime_state deployment v).0)
      (stale_keeps : (change : ChangeRecord) (recovery : Option String) (v : World O)
        → P v
        → P (on_db fleet (transition_change_state change ChangeState.stale recovery) v).0) where
    -- A failed call, in a world that still has the property.
    unfoldable pub Failed : {A : Type 0} → World O × Result HubError A → Type 0
    Failed x = P x.0 × ((e : HubError) × (x.1 ≡ err e))

    make_stale-Failed :
        (change : ChangeRecord) (recovery message : String) (v : World O)
        → P v
        → Failed (
            make_stale fleet fingerprint clock encode decode_spec fresh_id repository_head
              runtime_state app principal refresh request change recovery message v)
    unfolding make_stale Failed
    make_stale-Failed change recovery message v h = (
      continue_inv P _ (λ a s q. q) _ _ (stale_keeps change (some recovery) v h),
      continue_ind (λ (x : World O × Result HubError (Unit {0})). (e : HubError) × (x.1 ≡ err e)) _
          _ _ (λ e q. (e, refl)) (λ a q. (_, refl)),
    )

    expiry_tested :
        (change : ChangeRecord) (w : World O)
        → request.action ≡ activate
        → P w
        → let x =
            check_expiry fleet fingerprint clock encode decode_spec fresh_id repository_head
              runtime_state app principal refresh request change w in
          Failed x
          ⊎ ((x ≡ (w, ok tt))
              × (ltb (clock.as_second change.plan.expires_at) (clock.as_second (now w)) ≡ false))
    unfolding check_expiry
    expiry_tested change w is_activation h =
        choice_ind
          (λ (x : World O × Result HubError (Unit {0})).
            Failed x
            ⊎ ((x ≡ (w, ok tt))
                × (ltb (clock.as_second change.plan.expires_at) (clock.as_second (now w)) ≡ false)))
          _ (λ expired. inl (make_stale-Failed change _ _ w h))
          (λ fresh. inr (refl, ground (arith, fresh, is_activation)))

    baseline_tested :
        (change : ChangeRecord) (deployment : DeploymentConfig) (w : World O)
        → request.action ≡ activate
        → P w
        → let x =
            check_baseline fleet fingerprint clock encode decode_spec fresh_id repository_head
              runtime_state app principal refresh request change deployment w in
          Failed x ⊎ ((x ≡ (asked change deployment w, ok tt)) × Confirmed change deployment w)
    unfolding check_baseline compare_baseline Confirmed Failed
    baseline_tested change deployment w is_activation h =
        let R = λ (x : World O × Result HubError (Unit {0})).
          Failed x ⊎ ((x ≡ (asked change deployment w, ok tt)) × Confirmed change deployment w) in
        let h' = head_keeps change.plan w h in
        let h'' = state_keeps deployment (repository_head change.plan w).0 h' in
        choice_ind R _
          (λ yes.
            continue_ind R _ _ _ (λ e q. inl (h', (e, refl)))
              (λ commit head.
                continue_ind R _ _ _ (λ e q. inl (h'', (e, refl)))
                  (λ runtime state.
                    choice_ind R _ (λ changed. inl (make_stale-Failed change _ _ _ h''))
                      (λ same.
                        let (commits, matches) =
                          unchanged change commit runtime (of_not-false _ same) in
                        inr (refl, (commit, runtime, head, state, commits, matches))))))
          (λ other. absurd (ground (arith, other, is_activation)))

    -- A call for an activation either fails, and keeps whatever is kept by the questions to the
    -- executors and by marking a change as stale, so that no job has been submitted; or the change
    -- was ready for it, its plan had not expired, the executors, asked by this call, answered with
    -- the source and the runtime of the plan, and then the job is submitted, with this reply.
    pub submit_checked-confirms :
        (change : ChangeRecord) (deployment : DeploymentConfig) (w : World O)
        → request.action ≡ activate
        → P w
        → let x =
            submit_checked fleet fingerprint clock encode decode_spec fresh_id repository_head
              runtime_state app principal refresh request change deployment w in
          Failed x ⊎ IsSubmitted change deployment w x
    unfolding submit_checked IsSubmitted Failed
    submit_checked-confirms change deployment w is_activation h =
        let Q = λ (x : World O × Result HubError JobRecord).
          Failed x ⊎ IsSubmitted change deployment w x in
        let v = asked change deployment w in
        let h' = state_keeps deployment _ (head_keeps change.plan w h) in
        let tested = baseline_tested change deployment w is_activation h in
        continue_ind Q _ w _ (λ e q. inl (h, (e, refl)))
          (λ stage planned.
            continue_ind Q _ w _ (λ e q. inl (h, (e, refl)))
              (λ u ready. elim (expiry_tested change w is_activation h) [
                | inl (kept, (e, q)) ↦ left_at Q _ _ q (inl (kept, (e, refl)))
                | inr (at_w, fresh) ↦ passed Q _ _ at_w (elim tested [
                  | inl (kept, (e, q)) ↦ left_at Q _ _ q (inl (kept, (e, refl)))
                  | inr (at_v, confirmed) ↦ passed Q _ _ at_v (
                      passed Q (v, ok (now v)) _ refl
                        (continue_ind Q _ v _ (λ e q. inl (h', (e, refl)))
                          (λ deadline due. inr (
                            ensured _ _ ready,
                            fresh,
                            confirmed,
                            (stage, deadline, chosen _ _ planned, chosen _ _ due, refl),
                          ))))
                ])
              ]))
