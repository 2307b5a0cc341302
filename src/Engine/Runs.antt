-- ===== src/Engine/Runs.antt =====
-- Where the parts of `run_backup` leave the machine.
use pi_mobile_photobackup.Prelude.{
  ◌≡◌, refl, ◌≢◌, Text, Bool, true, Option, none, some, List, [], ◌∷◌, map, ℕ,
}
use pi_mobile_photobackup.Identity.{Sha256}
use pi_mobile_photobackup.Effects.{ok, ◌>>◌}
use pi_mobile_photobackup.Machine.{
  BackupState, idle, preflight_capacity_check, preflight_blocked, backup_queued, backup_copying,
  backup_cancelling, backup_verifying, backup_completed, backup_completed_with_warnings,
  backup_cancelled, backup_failed, source_safe_to_remove, can_transition, state_in, allowed_targets,
  state_eq, BackupState-discrete,
}
use pi_mobile_photobackup.World.{Environment}
use pi_mobile_photobackup.Preflight.{PreflightResult}
use pi_mobile_photobackup.Runner
use pi_mobile_photobackup.Runner.{JobOutcome, JobRunResult, run_job}
use pi_mobile_photobackup.Engine
use pi_mobile_photobackup.Engine.{
  Engine, Run, on_world, emit, emit_all, transition, transitions, reset_route, reset, Config, Found,
  EngineResult, final_state_of, counts_of, set_last_scan, with_token, preflight_of, preflight_now,
  finish_row, result_now, after_cancel, announce, after_run, conclude, execute, is_blocked,
  ready_state, blocked_result, run_backup, created, backup_completed_event, backup_failed_event,
  backup_cancelled_event, backup_started, backup_progress, preflight_started, preflight_completed,
  preflight_completed_blocked, session_root_of, generate_job_id,
}
use pi_mobile_photobackup.Engine.Rules.{
  Claim, Goes, on_world-Stays, with_token-Stays, emit-Stays, emit_all-Stays, set_last_scan-Stays,
  Goes-Stays, Goes-gets, Goes-bind, Goes-quiet, Goes-transition,
}

-- The states that `reset` knows a way from.
abbrev pub resettable : List BackupState
resettable =
    idle ∷ source_safe_to_remove ∷ preflight_blocked ∷ backup_failed ∷ backup_cancelled ∷ []

-- The states in which an exception of the run leaves the machine.
abbrev pub interrupted : List BackupState
interrupted =
    preflight_capacity_check ∷ backup_queued ∷ backup_copying ∷ backup_completed
    ∷ backup_completed_with_warnings ∷ backup_failed ∷ []

abbrev pub Interrupted : Claim
Interrupted k = state_in k interrupted ≡ true

-- Where a run that ends with this job stops.
abbrev pub end_state : Option JobRunResult → BackupState
end_state none = preflight_blocked
end_state (some job) = elim job.outcome [
  | Runner.failed ↦ backup_failed
  | _ ↦ source_safe_to_remove
]

abbrev pub Ended : EngineResult → Claim
Ended r k = (r.state ≡ k) × (k ≡ end_state r.job)

pub steps :
    {B : Type 0} {T : B → Claim} {R : Claim} (b c : BackupState) (f : Run B)
    → can_transition b c ≡ true
    → Goes c f T R
    → Goes b (transition c >> f) T R
steps b c f h k = Goes-bind c _ _ (Goes-transition b c h) (λ _. k)

pub says :
    {B : Type 0} {T : B → Claim} {R : Claim} {b : BackupState} (e : Engine.Event) (f : Run B)
    → Goes b f T R
    → Goes b (emit e >> f) T R
unfolding emit
says e f k = Goes-quiet _ _ (emit-Stays e) (λ s. (tt, refl)) (λ _. k)

pub scans :
    {B : Type 0} {T : B → Claim} {R : Claim} {b : BackupState} (root : Text) (n : ℕ) (f : Run B)
    → Goes b f T R
    → Goes b (set_last_scan root n >> f) T R
unfolding set_last_scan
scans root n f k = Goes-quiet _ _ (set_last_scan-Stays root n) (λ s. (tt, refl)) (λ _. k)

emit_all_ok : (es : List Engine.Event) (s : Engine) → (a : Unit {0}) × ((emit_all es s).0 ≡ ok a)
unfolding emit_all
emit_all_ok es s = (tt, refl)

module _ (sha : Sha256) (env : Environment) (config : Config) (cancel_requested : ℕ → Bool)
    (source_root : Text) (p : PreflightResult) (job_id : Text) where
  result_now_lem :
      (job : JobRunResult) (b : BackupState)
      → b ≡ end_state (some job)
      → Goes b (result_now sha env config cancel_requested p job job_id) Ended Interrupted
  unfolding result_now
  result_now_lem job b h = Goes-gets _ (λ s e. (refl, cc (e, h)))

  finish_row_lem :
      (b state : BackupState) (job : JobRunResult)
      → Interrupted b
      → Goes b
          (finish_row sha env config cancel_requested job_id state job)
          (λ _ k. k ≡ b)
          Interrupted
  unfolding finish_row
  finish_row_lem b state job h = Goes-Stays _ (on_world-Stays _) h

  after_cancel_lem :
      (job : JobRunResult)
      → job.outcome ≡ Runner.cancelled
      → Goes backup_copying
          (after_cancel sha env config cancel_requested p job_id job)
          Ended
          Interrupted
  unfolding after_cancel state_in state_eq BackupState-discrete can_transition allowed_targets
  after_cancel_lem job h =
      Goes-bind backup_copying _ _ (finish_row_lem backup_copying backup_cancelled job refl) λ _.
        steps _ backup_cancelling _ refl (
          steps _ backup_cancelled _ refl (
            says _ _ (
              steps _ source_safe_to_remove _ refl
                (result_now_lem job source_safe_to_remove (rw h refl)))))

  -- A run that did not fail ends with the source free.
  announce_lem :
      (job : JobRunResult) (outcome : JobOutcome)
      → job.outcome ≡ outcome
      → outcome ≢ Runner.cancelled
      → Goes
          (final_state_of outcome)
          (announce sha env config cancel_requested source_root job_id p outcome)
          (λ _ k. k ≡ end_state (some job))
          Interrupted
  unfolding announce final_state_of state_in state_eq BackupState-discrete can_transition
      allowed_targets
  announce_lem job Runner.completed h k =
      says _ _ (scans _ _ _ (rw h (Goes-transition backup_completed source_safe_to_remove refl)))
  announce_lem job Runner.completed_with_warnings h k = says _ _ (
      scans _ _ _
        (rw h (Goes-transition backup_completed_with_warnings source_safe_to_remove refl)))
  announce_lem job Runner.failed h k = rw h (Goes-Stays _ (emit-Stays _) refl)
  announce_lem job Runner.cancelled h k = absurd (k refl)

  final_state_allowed : (o : JobOutcome) → can_transition backup_verifying (final_state_of o) ≡ true
  unfolding final_state_of state_in state_eq BackupState-discrete can_transition allowed_targets
  final_state_allowed Runner.completed = refl
  final_state_allowed Runner.completed_with_warnings = refl
  final_state_allowed Runner.cancelled = refl
  final_state_allowed Runner.failed = refl

  final_state-Interrupted : (o : JobOutcome) → Interrupted (final_state_of o)
  unfolding final_state_of state_in state_eq BackupState-discrete
  final_state-Interrupted Runner.completed = refl
  final_state-Interrupted Runner.completed_with_warnings = refl
  final_state-Interrupted Runner.cancelled = refl
  final_state-Interrupted Runner.failed = refl

  after_run_lem :
      (job : JobRunResult)
      → job.outcome ≢ Runner.cancelled
      → Goes backup_copying
          (after_run sha env config cancel_requested source_root p job_id job)
          Ended
          Interrupted
  unfolding after_run state_in state_eq BackupState-discrete can_transition allowed_targets
  after_run_lem job h = steps _ backup_verifying _ refl (
      steps _ (final_state_of job.outcome) _ (final_state_allowed job.outcome) (
        Goes-bind (final_state_of job.outcome) _ _
          (finish_row_lem _ _ job (final_state-Interrupted job.outcome))
          λ _.
            Goes-bind (end_state (some job)) _ _ (announce_lem job job.outcome refl h)
              λ _. result_now_lem job _ refl))

  conclude_lem :
      (job : JobRunResult) (outcome : JobOutcome)
      → job.outcome ≡ outcome
      → Goes backup_copying
          (conclude sha env config cancel_requested source_root p job_id job outcome)
          Ended
          Interrupted
  unfolding conclude
  conclude_lem job Runner.cancelled h = after_cancel_lem job h
  conclude_lem job Runner.completed h = after_run_lem job (λ e. cc)
  conclude_lem job Runner.completed_with_warnings h = after_run_lem job (λ e. cc)
  conclude_lem job Runner.failed h = after_run_lem job (λ e. cc)

  pub execute_lem :
      (session_root : Text)
      → (b : BackupState) → can_transition b backup_queued ≡ true
      → Goes b
          (execute sha env config cancel_requested source_root p job_id session_root)
          Ended
          Interrupted
  unfolding execute state_in state_eq BackupState-discrete can_transition allowed_targets
  execute_lem session_root b h = steps _ backup_queued _ h (
      Goes-bind backup_queued _ _ (Goes-Stays _ (on_world-Stays _) refl) λ _.
        steps _ backup_copying _ refl (
          says _ _ (
            Goes-bind backup_copying _ _ (Goes-Stays _ (with_token-Stays _ (on_world-Stays _)) refl)
              λ r.
                Goes-quiet _ _ (emit_all-Stays _) (emit_all_ok (map (backup_progress job_id) r.1))
                  λ _. conclude_lem r.0 r.0.outcome refl)))
